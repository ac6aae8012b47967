-- ===== src/Validation/Position/Matches.antt =====
-- What the regular expressions of yaml-position.ts match stands in the text that they read.
use otel_hive.Base.{
  ℕ, ◌≡◌, ap, ◌∙◌, inl, inr, Bool, true, Option, none, some, List, [], ◌∷◌, ◌++◌, get_elem?,
  append-nil, subst, arith, ◌==◌, Bool-cases, Option-cases,
}
use otel_hive.Text.{Text, is_word, trim_start, trim}
use otel_hive.Text.Laws.{
  Occurs, Occurs-trans, Occurs-cons, starts_with-eq-true, trim_start_suffix, trim-Occurs,
  text_eq→eq,
}
use otel_hive.Validation.Patterns.{
  key_run, key_match, nonempty, bracket_body, opening, inline_at, inline_match, word_here,
  word_from,
}
use otel_hive.Validation.Position.{wanted}

word_here-Occurs : (t : Text) (w : Bool) (s : Text) → word_here t w s ≡ true → Occurs t s
unfolding word_here
word_here-Occurs t w s h =
    let (rest, e) = starts_with-eq-true s t (ground arith) in
    record { before = []; after = rest; parts = e }

pub word_from-Occurs : (t : Text) (w : Bool) (s : Text) → word_from t w s ≡ true → Occurs t s
unfolding word_from
word_from-Occurs t w [] h = word_here-Occurs t w [] h
word_from-Occurs t w (c ∷ s) h = elim (Bool-cases (word_here t w (c ∷ s))) [
  | inl now ↦ word_here-Occurs t w (c ∷ s) now
  | inr later ↦ Occurs-cons c (word_from-Occurs t (is_word c) s (rw later at h))
]

nonempty-eq-some : (o : Option Text) {t : Text} → nonempty o ≡ some t → o ≡ some t
nonempty-eq-some none h = h
nonempty-eq-some (some []) h = cc
nonempty-eq-some (some (c ∷ s)) h = h

key_run_prefix : (s : Text) {k : Text} → key_run s ≡ some k → (rest : Text) × (s ≡ k ++ rest)
unfolding key_run
key_run_prefix [] h = cc
key_run_prefix (c ∷ s) {k} h = elim (Bool-cases (c == b':')) [
  | inl colon ↦ let none_read : k ≡ [] = ground arith in (c ∷ s, rw none_read)
  | inr other ↦ elim (Option-cases (key_run s)) [
    | inl stop ↦ absurd (ground arith)
    | inr (k', run) ↦
        let (rest, e) = key_run_prefix s run in
        let read : k ≡ c ∷ k' = ground arith in (rest, rw read (ap (◌∷◌ c) e))
  ]
]

bracket_body_prefix :
    (s : Text) {k : Text} → bracket_body s ≡ some k → (rest : Text) × (s ≡ k ++ rest)
unfolding bracket_body
bracket_body_prefix [] h = cc
bracket_body_prefix (c ∷ s) {k} h = elim (Bool-cases (c == b']')) [
  | inl close ↦ let none_read : k ≡ [] = ground arith in (c ∷ s, rw none_read)
  | inr other ↦ elim (Option-cases (bracket_body s)) [
    | inl stop ↦ absurd (ground arith)
    | inr (k', run) ↦
        let (rest, e) = bracket_body_prefix s run in
        let read : k ≡ c ∷ k' = ground arith in (rest, rw read (ap (◌∷◌ c) e))
  ]
]

prefix-Occurs : {t s : Text} → ((rest : Text) × (s ≡ t ++ rest)) → Occurs t s
prefix-Occurs (rest, e) = record { before = []; after = rest; parts = e }

key_match-Occurs : (s : Text) {k : Text} → key_match s ≡ some k → Occurs k s
unfolding key_match
key_match-Occurs s h = prefix-Occurs (key_run_prefix s (nonempty-eq-some (key_run s) h))

opening-Occurs : (s : Text) {k : Text} → opening s ≡ some k → Occurs k s
unfolding opening
opening-Occurs [] h = cc
opening-Occurs (c ∷ s) {k} h = elim (Bool-cases (c == b'[')) [
  | inl bracket ↦
      let body : nonempty (bracket_body s) ≡ some k = rw bracket at h in
      Occurs-cons c (prefix-Occurs (bracket_body_prefix s (nonempty-eq-some (bracket_body s) body)))
  | inr other ↦ absurd (ground arith)
]

trim_start-Occurs : (s : Text) → Occurs (trim_start s) s
trim_start-Occurs s =
    let (pre, e) = trim_start_suffix s in
    record { before = pre; after = []; parts = rw append-nil e }

inline_at-Occurs : (c : ℕ) (s : Text) {k : Text} → inline_at c s ≡ some k → Occurs k (c ∷ s)
unfolding inline_at
inline_at-Occurs c s {k} h = elim (Bool-cases (c == b':')) [
  | inl colon ↦
      let body : opening (trim_start s) ≡ some k = rw colon at h in
      Occurs-cons c (Occurs-trans (opening-Occurs (trim_start s) body) (trim_start-Occurs s))
  | inr other ↦ absurd (ground arith)
]

-- The text between the brackets stands in the line.
pub inline_match-Occurs : (s : Text) {k : Text} → inline_match s ≡ some k → Occurs k s
unfolding inline_match
inline_match-Occurs [] h = cc
inline_match-Occurs (c ∷ s) {k} h = elim (Option-cases (inline_at c s)) [
  | inl miss ↦ Occurs-cons c (inline_match-Occurs s (rw (miss, inline_match) at h))
  | inr (b, hit) ↦
      let same : b ≡ k = ground arith in
      subst (λ t. Occurs t (c ∷ s)) same (inline_at-Occurs c s hit)
]

-- A wanted key is the path's, and stands in the line.
pub wanted-eq-some :
    (path : List Text) (n : ℕ) (trimmed : Text) {key : Text}
    → wanted path n trimmed ≡ some key
    → (get_elem? path n ≡ some key) × Occurs key trimmed
unfolding wanted
wanted-eq-some path n trimmed {key} h = elim (Option-cases (get_elem? path n)) [
  | inl e ↦ absurd (ground arith)
  | inr (key', e) ↦ elim (Option-cases (key_match trimmed)) [
    | inl f ↦ absurd (ground arith)
    | inr (k, f) ↦
        let same : key' ≡ key = ground arith in
        let read : trim k ≡ key' = text_eq→eq (trim k) key' (ground arith) in
        (
          rw (← same) e,
          subst (λ t. Occurs t trimmed) (read ∙ same)
              (Occurs-trans (trim-Occurs k) (key_match-Occurs trimmed f)),
        )
  ]
]
