-- ===== src/Validation/Patterns.antt =====
-- yaml-position.ts: what its regular expressions match, for a key, an array on one line and a
-- component's name.
use otel_hive.Base.{
  ℕ, Bool, true, false, not, ◌&&◌, ◌||◌, Option, none, some, [], ◌∷◌, length, drop, ◌==◌,
  if◌then◌else◌,
}
use otel_hive.Text.{Text, starts_with, is_word, trim_start}

unfoldable pub key_run : Text → Option Text
key_run [] = none
key_run (c ∷ s) =
    if c == b':'
    then some []
    else if c == b'#' || c == b'[' || c == b']'
    then none
    else elim (key_run s) [ none ↦ none | some k ↦ some (c ∷ k) ]

-- A match of one character or more.
abbrev pub nonempty : Option Text → Option Text
nonempty none = none
nonempty (some []) = none
nonempty (some (c ∷ s)) = some (c ∷ s)

-- The group of `/^([^:#[\]]+):/`.
unfoldable pub key_match : Text → Option Text
unfolding key_run
key_match trimmed = nonempty (key_run trimmed)

unfoldable pub bracket_body : Text → Option Text
bracket_body [] = none
bracket_body (c ∷ s) =
    if c == b']' then some [] else elim (bracket_body s) [ none ↦ none | some k ↦ some (c ∷ k) ]

unfoldable pub opening : Text → Option Text
unfolding bracket_body
opening [] = none
opening (c ∷ s) = if c == b'[' then nonempty (bracket_body s) else none

unfoldable pub inline_at : ℕ → Text → Option Text
unfolding opening
inline_at c s = if c == b':' then opening (trim_start s) else none

-- The group of the leftmost match of `/:\s*\[([^\]]+)\]/`.
unfoldable pub inline_match : Text → Option Text
unfolding inline_at
inline_match [] = none
inline_match (c ∷ s) = elim (inline_at c s) [ some body ↦ some body | none ↦ inline_match s ]

abbrev pub xor : Bool → Bool → Bool
xor true b = not b
xor false b = b

abbrev pub starts_word : Text → Bool
starts_word [] = false
starts_word (c ∷ s) = is_word c

abbrev pub ends_word : Bool → Text → Bool
ends_word w [] = w
ends_word w (c ∷ s) = ends_word (is_word c) s

-- `name` stands at the head of `s` between word boundaries; `w` says whether a word character
-- stands before.
unfoldable pub word_here : Text → Bool → Text → Bool
word_here name w s =
    xor w (starts_word s)
    && starts_with s name
    && xor (ends_word w name) (starts_word (drop (length name) s))

unfoldable pub word_from : Text → Bool → Text → Bool
unfolding word_here
word_from name w [] = word_here name w []
word_from name w (c ∷ s) = word_here name w (c ∷ s) || word_from name (is_word c) s

-- No syntax character: ^ $ \ . * + ? ( ) [ ] { } |
unfoldable pub is_literal : Text → Bool
is_literal [] = true
is_literal (c ∷ s) =
    not (
      c == b'^'
      || c == b'$'
      || c == 92
      || c == b'.'
      || c == b'*'
      || c == b'+'
      || c == b'?'
      || c == b'('
      || c == b')'
      || c == b'['
      || c == b']'
      || c == b'{'
      || c == b'}'
      || c == b'|')
    && is_literal s
