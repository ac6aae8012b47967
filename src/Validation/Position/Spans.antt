-- ===== src/Validation/Position/Spans.antt =====
-- The range that `find_yaml_position` answers is a place where the searched text stands.
use otel_hive.Base.{
  ℕ, ◌+◌, ◌≡◌, refl, subst, ◌⊎◌, inl, inr, Bool, true, false, Option, none, some, List, [], ◌∷◌,
  length, get_elem?, arith, Bool-cases, Option-cases,
}
use otel_hive.Text.{truthy, Text, trim, split}
use otel_hive.Text.Laws.{Occurs, Occurs-trans, trim-Occurs}
use otel_hive.Validation.Types.{ok, ◌>>=◌, >>=-eq-ok}
use otel_hive.Validation.Position.Matches.{word_from-Occurs, inline_match-Occurs}
use otel_hive.Validation.Patterns.{inline_match, word_from, is_literal}
use otel_hive.Validation.Position.{
  IsLiteral, Position, indent_of, position_at, column_of, at_target, scan, component_regexp,
  find_inline, find_item, locate, find_from, find_yaml_position,
}
use otel_hive.Validation.Position.Covers.{
  At, At-head, At-next, Covers, Covers-of_Occurs, IsTarget, Scan-cases, truthy-eq-some,
  scan-eq-at_target,
}

module _ (regexp : Text → Option (Text → Bool)) where
  component_regexp_literal :
      (name : Text)
      → is_literal name ≡ true
      → component_regexp regexp name ≡ some (word_from name false)
  unfolding component_regexp
  component_regexp_literal name literal = rw literal

  find_inline-Covers :
      {all : List Text} (i : ℕ) {line : Text} (name : Text) {p : Position}
      → is_literal name ≡ true
      → get_elem? all i ≡ some line
      → find_inline regexp name line i ≡ ok (some p)
      → Covers all p name
  unfolding find_inline
  find_inline-Covers {all} i {line} name {p} literal listed h =
      elim (Option-cases (inline_match line)) [
        | inl missing ↦ absurd (ground arith)
        | inr (content, e) ↦ elim (Bool-cases (word_from name false content)) [
          | inl hit ↦
              let place : position_at i (column_of line name) (length name) ≡ p =
                ground (arith, component_regexp_literal name literal) in
              subst (λ q. Covers all q name) place
                (Covers-of_Occurs i listed (
                  Occurs-trans (word_from-Occurs name false content hit)
                    (inline_match-Occurs line e)))
          | inr miss ↦ absurd (ground (arith, component_regexp_literal name literal))
        ]
      ]

  find_item_cases :
      (name : Text) (indent : ℕ) (line : Text) (lines : List Text) (j : ℕ) {p : Position}
      → is_literal name ≡ true
      → find_item regexp name indent (line ∷ lines) j ≡ ok (some p)
      → (find_item regexp name indent lines (j + 1) ≡ ok (some p))
        ⊎ (word_from name false (trim line) ≡ true)
          × (position_at j (column_of line name) (length name) ≡ p)
  unfolding find_item
  find_item_cases name indent line lines j literal h =
      ground (arith, component_regexp_literal name literal)

  find_item-Covers :
      {all : List Text} (name : Text) (indent : ℕ) (lines : List Text) (j : ℕ) {p : Position}
      → is_literal name ≡ true
      → At all j lines
      → find_item regexp name indent lines j ≡ ok (some p)
      → Covers all p name
  unfolding find_item
  find_item-Covers name indent [] j literal a h = cc
  find_item-Covers {all} name indent (line ∷ lines) j {p} literal a h =
      elim (find_item_cases name indent line lines j literal h) [
        | inl later ↦ find_item-Covers name indent lines (j + 1) literal (At-next a) later
        | inr (hit, place) ↦
            subst (λ q. Covers all q name) place
              (Covers-of_Occurs j (At-head a)
                (Occurs-trans (word_from-Occurs name false (trim line) hit) (trim-Occurs line)))
      ]

  key_place :
      {all : List Text} (i : ℕ) {key line : Text} {p : Position}
      → get_elem? all i ≡ some line
      → Occurs key line
      → position_at i (column_of line key) (length key) ≡ p
      → Covers all p key
  key_place {all} i {key} listed o place =
      subst (λ q. Covers all q key) place (Covers-of_Occurs i listed o)

  locate_cases :
      (name key line : Text) (below : List Text) (i : ℕ) {p : Position}
      → locate regexp (some name) key line below i ≡ ok p
      → (find_inline regexp name line i ≡ ok (some p))
        ⊎ (find_item regexp name (indent_of line) below (i + 1) ≡ ok (some p))
        ⊎ (position_at i (column_of line key) (length key) ≡ p)
  unfolding locate
  locate_cases name key line below i h = ground arith

  -- The position found is that of the component, or of the key.
  locate-Covers :
      {all : List Text} (component : Option Text) (key line : Text) (below : List Text) (i : ℕ)
      {p : Position}
      → IsLiteral component
      → At all i (line ∷ below)
      → Occurs key line
      → locate regexp component key line below i ≡ ok p
      → Covers all p key ⊎ ((name : Text) × (component ≡ some name) × Covers all p name)
  unfolding locate
  locate-Covers none key line below i literal a o h = inl (key_place i (At-head a) o (ground arith))
  locate-Covers {all} (some name) key line below i {p} literal a o h =
      elim (locate_cases name key line below i h) [
        | inl inline ↦
            inr (name, refl, find_inline-Covers i name (literal name refl) (At-head a) inline)
        | inr (inl item) ↦ inr (
          name,
          refl,
          find_item-Covers name (indent_of line) below (i + 1) (literal name refl) (At-next a) item,
        )
        | inr (inr fallback) ↦ inl (key_place i (At-head a) o fallback)
      ]

  found-IsTarget :
      {all : List Text} (path : List Text) (component : Option Text) (line : Text)
      (lines : List Text) (i n indent : ℕ) (key : Text) {p : Position}
      → IsLiteral component
      → At all i (line ∷ lines)
      → scan path n indent line ≡ at_target key
      → (locate regexp (truthy component) key line lines i >>= λ found. ok (some found))
        ≡ ok (some p)
      → IsTarget all path component p
  found-IsTarget {all} path component line lines i n indent key {p} literal a e h =
      let (listed, o) = scan-eq-at_target path n indent line key e in
      let (p', same, located) = >>=-eq-ok (locate regexp (truthy component) key line lines i) _ h in
      let same_p : p' ≡ p = cc in
      elim (locate-Covers (truthy component) key line lines i
        (λ name f. literal name (truthy-eq-some component f)) a o located) [
          | inl k ↦ inl (key, listed, subst (λ q. Covers all q key) same_p k)
          | inr (name, f, c) ↦
              inr (name, truthy-eq-some component f, subst (λ q. Covers all q name) same_p c)
        ]

  find_from-IsTarget :
      {all : List Text} (path : List Text) (component : Option Text) (lines : List Text)
      (i n indent : ℕ) {p : Position}
      → IsLiteral component
      → At all i lines
      → find_from regexp path component lines i n indent ≡ ok (some p)
      → IsTarget all path component p
  unfolding find_from
  find_from-IsTarget path component [] i n indent literal a h = cc
  find_from-IsTarget path component (line ∷ lines) i n indent literal a h =
      elim (Scan-cases (scan path n indent line)) [
        | inl (n', indent', e) ↦
            find_from-IsTarget path component lines (i + 1) n' indent' literal (At-next a)
              (rw (e, find_from) at h)
        | inr (key, e) ↦
            found-IsTarget path component line lines i n indent key literal a e
              (rw (e, find_from) at h)
      ]

-- A position that is found covers, in one of the lines of the text, the characters of the path's last
-- key or those of the component's name, which may be part of a longer word there. The component's name
-- holds no syntax character of regular expressions.
pub find_yaml_position-IsTarget :
    (regexp : Text → Option (Text → Bool)) (yaml_content : Text) (path : List Text)
    (component : Option Text) (p : Position)
    → IsLiteral component
    → find_yaml_position regexp yaml_content path component ≡ ok (some p)
    → IsTarget (split 10 yaml_content) path component p
unfolding find_yaml_position
find_yaml_position-IsTarget regexp yaml_content path component p literal h =
    find_from-IsTarget regexp path component _ 0 0 0 literal
      (record { passed = []; parts = refl; index = refl }) h
