-- ===== src/Text.antt =====
-- JavaScript strings as the lists of their UTF-16 code units, and the operations of the language
-- that the sources use on them.
pub mod Laws
pub mod Decimal
use Prim.Native.Char.{code}
use Prim.Native.String.{String}
use otel_hive.Base.{
  ℕ, zero, suc, ◌+◌, ◌/◌, ◌%◌, Bool, true, false, ◌&&◌, ◌||◌, not, Option, none, some, List, [],
  ◌∷◌, ◌++◌, map, length, leb, ◌==◌, if◌then◌else◌, take, drop,
}

abbrev pub Text : Type 0
Text = List ℕ

-- The code units of an ASCII literal.
abbrev pub text : String → Text
text String.[] = []
text (String.◌∷◌ c s) = code c ∷ text s

-- The empty text is falsy, as an absent one.
abbrev pub truthy : Option Text → Option Text
truthy none = none
truthy (some []) = none
truthy (some (c ∷ s)) = some (c ∷ s)

-- `a === b`
unfoldable pub text_eq : Text → Text → Bool
text_eq [] [] = true
text_eq (c ∷ s) (d ∷ t) = c == d && text_eq s t
text_eq _ _ = false

-- `s.startsWith(t)`
unfoldable pub starts_with : Text → Text → Bool
starts_with s [] = true
starts_with [] (d ∷ t) = false
starts_with (c ∷ s) (d ∷ t) = c == d && starts_with s t

-- `s.indexOf(t)`, with `none` for -1.
unfoldable pub index_of : Text → Text → Option ℕ
unfolding starts_with
index_of [] t = if starts_with [] t then some 0 else none
index_of (c ∷ s) t =
    if starts_with (c ∷ s) t
    then some 0
    else elim (index_of s t) [ none ↦ none | some i ↦ some (suc i) ]

-- `s.includes(t)`
abbrev pub includes : Text → Text → Bool
includes s t = elim (index_of s t) [ none ↦ false | some i ↦ true ]

-- `s.replace(t, "")`, which drops the first occurrence.
unfoldable pub remove_first : Text → Text → Text
unfolding index_of
remove_first s t = elim (index_of s t) [ none ↦ s | some i ↦ take i s ++ drop (i + length t) s ]

-- WhiteSpace and LineTerminator, as `trim` and `\s` read them.
unfoldable pub is_space : ℕ → Bool
is_space c =
    (leb 9 c && leb c 13)
    || c == 32
    || c == 160
    || c == 0x1680
    || (leb 0x2000 c && leb c 0x200a)
    || c == 0x2028
    || c == 0x2029
    || c == 0x202f
    || c == 0x205f
    || c == 0x3000
    || c == 0xfeff

-- `\w`: a letter, a digit or an underscore.
unfoldable pub is_word : ℕ → Bool
is_word c =
    (leb b'a' c && leb c b'z')
    || (leb b'A' c && leb c b'Z')
    || (leb b'0' c && leb c b'9')
    || c == b'_'

unfoldable pub trim_start : Text → Text
unfolding is_space
trim_start [] = []
trim_start (c ∷ s) = if is_space c then trim_start s else c ∷ s

unfoldable pub trim_end : Text → Text
unfolding is_space
trim_end [] = []
trim_end (c ∷ s) = elim (trim_end s) [ [] ↦ if is_space c then [] else c ∷ [] | d ∷ t ↦ c ∷ d ∷ t ]

unfoldable pub trim : Text → Text
unfolding trim_start trim_end
trim s = trim_end (trim_start s)

-- `s.split(sep)` for a separator of one code unit.
unfoldable pub split : ℕ → Text → List Text
split sep [] = [] ∷ []
split sep (c ∷ s) = elim (split sep s) [
  | [] ↦ []
  | line ∷ lines ↦ if c == sep then [] ∷ line ∷ lines else (c ∷ line) ∷ lines
]

pub decimal_from : ℕ → ℕ → Text → Text
decimal_from zero n acc = acc
decimal_from (suc fuel) n acc =
    let more = decimal_from fuel (n / 10) ((b'0' + n % 10) ∷ acc) in
    if n / 10 == 0 then (b'0' + n % 10) ∷ acc else more

-- The decimal digits of a number, as a template literal writes them.
unfoldable pub decimal : ℕ → Text
unfolding decimal_from
decimal n = decimal_from (suc n) n []
