-- ===== src/Validation/Position/Total.antt =====
-- A search for a component whose name matches itself does not throw, and an error carries what it
-- was made from.
use otel_hive.Base.{
  ap, ℕ, ◌+◌, ◌≡◌, refl, subst, Bool, true, Option, none, some, List, [], ◌∷◌, arith, inl, inr,
}
use otel_hive.Text.{truthy, Text, split}
use otel_hive.Validation.Types.{
  ok, ◌>>=◌, Returns, Returns-ok, >>=-eq-ok, Severity, ValidationError,
}
use otel_hive.Validation.Position.Covers.{Scan-cases}
use otel_hive.Validation.Patterns.{is_literal}
use otel_hive.Validation.Position.{
  IsLiteral, Position, indent_of, scan, component_regexp, find_inline, find_item, locate, find_from,
  find_yaml_position, error_at, create_validation_error,
}

module _ (regexp : Text → Option (Text → Bool)) where
  find_inline-Returns :
      (name line : Text) (i : ℕ) → is_literal name ≡ true → Returns (find_inline regexp name line i)
  unfolding find_inline component_regexp
  find_inline-Returns name line i h = ground arith

  find_item-Returns :
      (name : Text) (indent : ℕ) (lines : List Text) (j : ℕ)
      → is_literal name ≡ true
      → Returns (find_item regexp name indent lines j)
  unfolding find_item component_regexp
  find_item-Returns name indent [] j h = ground arith
  find_item-Returns name indent (line ∷ lines) j h =
      ground (arith, find_item-Returns name indent lines (j + 1) h)

  locate-Returns :
      (component : Option Text) (key line : Text) (below : List Text) (i : ℕ)
      → IsLiteral component
      → Returns (locate regexp component key line below i)
  unfolding locate
  locate-Returns none key line below i literal = ground arith
  locate-Returns (some name) key line below i literal = ground (
    arith,
    find_inline-Returns name line i (literal name refl),
    find_item-Returns name (indent_of line) below (i + 1) (literal name refl),
  )

  find_from-Returns :
      (path : List Text) (component : Option Text) (lines : List Text) (i n indent : ℕ)
      → IsLiteral (truthy component)
      → Returns (find_from regexp path component lines i n indent)
  unfolding find_from
  find_from-Returns path component [] i n indent literal = ground arith
  find_from-Returns path component (line ∷ lines) i n indent literal =
      elim (Scan-cases (scan path n indent line)) [
        | inl (n', indent', e) ↦
            rw (e, find_from) (find_from-Returns path component lines (i + 1) n' indent' literal)
        | inr (key, e) ↦ ground (arith, locate-Returns (truthy component) key line lines i literal)
      ]

truthy-IsLiteral : (component : Option Text) → IsLiteral component → IsLiteral (truthy component)
truthy-IsLiteral none literal name e = literal name e
truthy-IsLiteral (some []) literal name e = cc
truthy-IsLiteral (some (c ∷ s)) literal name e = literal name e

error_at-message :
    (message : Text) (severity : Severity) (path : List Text) (p : Option Position)
    → ((error_at message severity path p).message ≡ message)
      × ((error_at message severity path p).severity ≡ severity)
error_at-message message severity path none = (refl, refl)
error_at-message message severity path (some p) = (refl, refl)

-- An error can be made for a literal component, with the given message and severity.
pub create_validation_error_lem :
    (regexp : Text → Option (Text → Bool)) (message yaml_content : Text) (path : List Text)
    (component : Option Text) (severity : Severity)
    → IsLiteral component
    → (e : ValidationError) × (create_validation_error regexp message yaml_content path component
          severity
        ≡ ok e)
      × (e.message ≡ message)
      × (e.severity ≡ severity)
unfolding create_validation_error
create_validation_error_lem regexp message yaml_content path component severity literal =
    let (p, e) = Returns-ok _ (
      find_from-Returns regexp path component (split 10 yaml_content) 0 0 0
        (truthy-IsLiteral component literal)) in
    let (m, s) = error_at-message message severity path p in
    (
      error_at message severity path p,
      ap (λ r. r >>= λ q. ok (error_at message severity path q)) e,
      m,
      s,
    )

-- Whatever error is made has the given message and severity.
pub create_validation_error-eq-ok :
    (regexp : Text → Option (Text → Bool)) (message yaml_content : Text) (path : List Text)
    (component : Option Text) (severity : Severity) {e : ValidationError}
    → create_validation_error regexp message yaml_content path component severity ≡ ok e
    → (e.message ≡ message) × (e.severity ≡ severity)
unfolding create_validation_error
create_validation_error-eq-ok regexp message yaml_content path component severity {e} h =
    let (p, g, f) = >>=-eq-ok (find_yaml_position regexp yaml_content path component) _ h in
    let (m, s) = error_at-message message severity path p in
    let same : error_at message severity path p ≡ e = cc in
    subst (λ x. (x.message ≡ message) × (x.severity ≡ severity)) same (m, s)
