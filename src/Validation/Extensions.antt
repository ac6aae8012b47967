-- ===== src/Validation/Extensions.antt =====
-- validators/otel-extensions-validator.ts: the extensions that the service names are defined.
pub mod Outcome
use otel_hive.Base.{
  ◌≡◌, refl, ◌↔◌, inl, inr, Bool, Option, none, some, List, [], ◌∷◌, ◌++◌, Option-cases,
}
use otel_hive.Text.{Text, text}
use otel_hive.Validation.Types.{
  Throws, ok, ValidationError, error, Service, OTelConfig, ParsedData, no_object, config,
}
use otel_hive.Validation.Position.{create_validation_error}
use otel_hive.Validation.Pipeline.{or_empty, check_references}
use otel_hive.Validation.Pipeline.Resolves.{Resolve, check_references-eq-nil}

abbrev pub extension_message : Text → Text
extension_message extension =
    text "Extension '"
    ++ extension
    ++ text "' is used in service but not defined in extensions section"

module _ (regexp : Text → Option (Text → Bool)) (yaml_content : Text) where
  pub report_extension : Text → Throws ValidationError
  report_extension extension =
      create_validation_error regexp (extension_message extension) yaml_content
        (text "service" ∷ text "extensions" ∷ []) (some extension) error

  pub extension_errors : OTelConfig → Option Service → Throws (List ValidationError)
  extension_errors c none = ok []
  extension_errors c (some s) = elim s.extensions [
    | none ↦ ok []
    | some extensions ↦ check_references report_extension (or_empty c.extensions) extensions
  ]

  -- `OTelExtensionsValidator.validate`
  unfoldable pub validate_extensions : ParsedData → Throws (List ValidationError)
  unfolding extension_errors report_extension
  validate_extensions no_object = ok []
  validate_extensions (config c) = extension_errors c c.service

abbrev ServiceExtensions : OTelConfig → Option Service → Type 0
ServiceExtensions c none = Unit
ServiceExtensions c (some s) = Resolve (or_empty c.extensions) (or_empty s.extensions)

-- Every extension of the service is a key of the extensions section.
abbrev pub ExtensionsResolve : ParsedData → Type 0
ExtensionsResolve no_object = Unit
ExtensionsResolve (config c) = ServiceExtensions c c.service

extension_errors-eq-nil :
    (regexp : Text → Option (Text → Bool)) (yaml : Text) (c : OTelConfig) (s : Option Service)
    → (extension_errors regexp yaml c s ≡ ok []) ↔ ServiceExtensions c s
unfolding extension_errors
extension_errors-eq-nil regexp yaml c none = (λ _. tt, λ _. refl)
extension_errors-eq-nil regexp yaml c (some s) = elim (Option-cases s.extensions) [
  | inl e ↦ rw (e, or_empty) (λ _. tt, λ _. refl)
  | inr (es, e) ↦
      rw (e, or_empty)
        (check_references-eq-nil (report_extension regexp yaml) (or_empty c.extensions) es)
]

-- The validator reports nothing exactly when every extension that the service names is defined.
pub validate_extensions-eq-nil :
    (regexp : Text → Option (Text → Bool)) (yaml_content : Text) (parsed : ParsedData)
    → (validate_extensions regexp yaml_content parsed ≡ ok []) ↔ ExtensionsResolve parsed
unfolding validate_extensions
validate_extensions-eq-nil regexp yaml no_object = (λ _. tt, λ _. refl)
validate_extensions-eq-nil regexp yaml (config c) = extension_errors-eq-nil regexp yaml c c.service
