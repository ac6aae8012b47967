-- ===== src/Validation/Types.antt =====
-- types.ts: errors, results and the shape of a collector configuration; and the outcome of code
-- that may throw.
use otel_hive.Base.{ℕ, ◌≡◌, ◌≢◌, refl, Bool, Option, List}
use otel_hive.Text.{Text}

-- The outcome of a call that may throw.
pub data Throws {ℓ} (A : Type ℓ) : Type ℓ where
  throws : Throws A
  ok : A → Throws A

pub ok_injective {ℓ} : {A : Type ℓ} {a b : A} → ok a ≡ ok b → a ≡ b
ok_injective h = cc

-- The statement after a call runs only if the call returns.
infixl 5 ◌>>=◌
abbrev pub ◌>>=◌ {ℓ} : {A B : Type ℓ} (call : Throws A) (next : A → Throws B) → Throws B
throws >>= next = throws
ok value >>= next = next value

-- A chain that returns has called both of its parts.
pub >>=-eq-ok {ℓ} :
    {A B : Type ℓ} (call : Throws A) (next : A → Throws B) {result : B}
    → (call >>= next) ≡ ok result
    → (value : A) × (next value ≡ ok result) × (call ≡ ok value)
>>=-eq-ok throws next returned = cc
>>=-eq-ok (ok value) next returned = (value, returned, refl)

-- The call does not throw.
abbrev pub Returns {ℓ} : {A : Type ℓ} → Throws A → Type ℓ
Returns m = m ≢ throws

pub Returns-ok {ℓ} : {A : Type ℓ} (m : Throws A) → Returns m → (a : A) × (m ≡ ok a)
Returns-ok (ok a) h = (a, refl)
Returns-ok throws h = absurd (h refl)

pub data Severity : Type 0 where
  error warning : Severity

pub record ValidationError : Type 0 where
  pub message : Text
  pub severity : Severity
  pub line : ℕ
  pub column : ℕ
  pub end_line : Option ℕ
  pub end_column : Option ℕ
  pub path : Option (List Text)

pub record ValidationResult : Type 0 where
  pub valid : Bool
  pub errors : List ValidationError

pub record Pipeline : Type 0 where
  pub receivers : Option (List Text)
  pub processors : Option (List Text)
  pub exporters : Option (List Text)

-- A pipeline whose YAML value is empty is `null`, here `none`.
pub record Service : Type 0 where
  pub pipelines : Option (List (Text × Option Pipeline))
  pub extensions : Option (List Text)

-- Of a section of components only the keys are read. An absent section and a `null` one are `none`.
pub record OTelConfig : Type 0 where
  pub receivers : Option (List Text)
  pub processors : Option (List Text)
  pub exporters : Option (List Text)
  pub extensions : Option (List Text)
  pub connectors : Option (List Text)
  pub service : Option Service

-- The parsed document: falsy or no object, or an object.
pub data ParsedData : Type 0 where
  no_object : ParsedData
  config : OTelConfig → ParsedData
