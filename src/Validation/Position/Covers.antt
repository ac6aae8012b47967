-- ===== src/Validation/Position/Covers.antt =====
-- The ranges that cover a text, and what the search does with one line.
use otel_hive.Base.{
  ℕ, ◌+◌, ◌-◌, ◌≡◌, refl, sym, ◌∙◌, subst, ◌⊎◌, inl, inr, Option, none, some, List, [], ◌∷◌, ◌++◌,
  length, take, drop, get_elem?, length-append, append_assoc, arith, Option-cases,
}
use otel_hive.Text.{truthy, Text, trim}
use otel_hive.Text.Laws.{Occurs, Occurs-trans, index_of-eq-some, index_of-Occurs, trim-Occurs}
use otel_hive.Validation.Position.Matches.{wanted-eq-some}
use otel_hive.Validation.Position.{
  Position, position_at, column_of, Scan, go_on, at_target, wanted, scan,
}

-- The suffix `rest` of `all` begins at index `i`.
pub record At (all : List Text) (i : ℕ) (rest : List Text) : Type 0 where
  pub passed : List Text
  pub parts : all ≡ passed ++ rest
  pub index : length passed ≡ i

pub get_elem?-append :
    (xs : List Text) (x : Text) (ys : List Text) → get_elem? (xs ++ x ∷ ys) (length xs) ≡ some x
get_elem?-append [] x ys = refl
get_elem?-append (y ∷ xs) x ys = get_elem?-append xs x ys

pub At-head :
    {all : List Text} {i : ℕ} {line : Text} {rest : List Text}
    → At all i (line ∷ rest)
    → get_elem? all i ≡ some line
At-head {line} {rest} a = rw (a.parts, ← a.index) (get_elem?-append a.passed line rest)

pub At-next :
    {all : List Text} {i : ℕ} {line : Text} {rest : List Text}
    → At all i (line ∷ rest)
    → At all (i + 1) rest
At-next {line} {rest} a = record {
  passed = a.passed ++ line ∷ [];
  parts = a.parts ∙ sym (append_assoc a.passed (line ∷ []) rest);
  index = omega (arith, length-append a.passed (line ∷ []), a.index);
}

-- The position covers the characters of `t`, once, in one of the lines.
pub record Covers (lines : List Text) (p : Position) (t : Text) : Type 0 where
  pub index : ℕ
  pub offset : ℕ
  pub line : Text
  pub listed : get_elem? lines index ≡ some line
  pub place : p ≡ position_at index (offset + 1) (length t)
  pub reads : take (length t) (drop offset line) ≡ t

pub Covers-of_Occurs :
    {all : List Text} (i : ℕ) {line t : Text}
    → get_elem? all i ≡ some line
    → Occurs t line
    → Covers all (position_at i (column_of line t) (length t)) t
unfolding column_of
Covers-of_Occurs i {line} {t} listed o =
    let (offset, found) = index_of-Occurs o in
    record {
      index = i;
      offset = offset;
      line = line;
      listed = listed;
      place = rw (found, column_of);
      reads = index_of-eq-some line t offset found;
    }

-- A position answered for a path: the characters of its last key, or of the name of the component.
abbrev pub IsTarget : List Text → List Text → Option Text → Position → Type 0
IsTarget lines path component p =
    ((key : Text) × (get_elem? path (length path - 1) ≡ some key) × Covers lines p key)
    ⊎ ((name : Text) × (component ≡ some name) × Covers lines p name)

pub Scan-cases :
    (s : Scan)
    → ((n : ℕ) × (indent : ℕ) × (s ≡ go_on n indent)) ⊎ ((key : Text) × (s ≡ at_target key))
Scan-cases (go_on n indent) = inl (n, indent, refl)
Scan-cases (at_target key) = inr (key, refl)

pub truthy-eq-some : (o : Option Text) {t : Text} → truthy o ≡ some t → o ≡ some t
truthy-eq-some none h = h
truthy-eq-some (some []) h = cc
truthy-eq-some (some (c ∷ s)) h = h

pub scan-eq-at_target :
    (path : List Text) (n indent : ℕ) (line key : Text)
    → scan path n indent line ≡ at_target key
    → (get_elem? path (length path - 1) ≡ some key) × Occurs key line
unfolding scan
scan-eq-at_target path n indent line key h = elim (Option-cases (wanted path n (trim line))) [
  | inl e ↦ absurd (ground arith)
  | inr (key', e) ↦
      let same : key' ≡ key = ground arith in
      let last : n ≡ length path - 1 = ground arith in
      let (listed, o) = wanted-eq-some path n (trim line) e in
      (
        rw (← last, ← same) listed,
        subst (λ t. Occurs t line) same (Occurs-trans o (trim-Occurs line)),
      )
]
