-- ===== src/Validation/Extensions/Outcome.antt =====
-- The extensions validator reports errors of severity "error" only, and returns where no name holds
-- a syntax character of regular expressions.
use otel_hive.Base.{inl, inr, Bool, Option, none, some, Option-cases, arith}
use otel_hive.Text.{Text}
use otel_hive.Validation.Types.{Returns, error, Service, OTelConfig, ParsedData, no_object, config}
use otel_hive.Validation.Outcome.{Reports}
use otel_hive.Validation.Position.Total.{create_validation_error-eq-ok}
use otel_hive.Validation.Pipeline.{or_empty}
use otel_hive.Validation.Pipeline.Outcome.{
  AllLiteral, check_references-Reports, check_references-Returns, create-Returns,
}
use otel_hive.Validation.Extensions.{
  report_extension, extension_errors, validate_extensions, extension_message,
}

abbrev ServiceIsLiteral : Option Service → Type 0
ServiceIsLiteral none = Unit
ServiceIsLiteral (some s) = AllLiteral s.extensions

-- The names of the service's extensions hold no syntax character.
abbrev pub ExtensionsLiteral : ParsedData → Type 0
ExtensionsLiteral no_object = Unit
ExtensionsLiteral (config c) = ServiceIsLiteral c.service

module _ (regexp : Text → Option (Text → Bool)) (yaml : Text) where
  extension_errors-Reports :
      (c : OTelConfig) (s : Option Service) → Reports error (extension_errors regexp yaml c s)
  unfolding extension_errors report_extension
  extension_errors-Reports c none = tt
  extension_errors-Reports c (some s) = elim (Option-cases s.extensions) [
    | inl e ↦ rw (e, extension_errors) tt
    | inr (es, e) ↦
        rw (e, extension_errors)
          (check_references-Reports error (report_extension regexp yaml) (or_empty c.extensions) es
            (λ r v h. (create_validation_error-eq-ok regexp _ yaml _ _ error h).1))
  ]

  extension_errors-Returns :
      (c : OTelConfig) (s : Option Service)
      → ServiceIsLiteral s
      → Returns (extension_errors regexp yaml c s)
  unfolding extension_errors report_extension
  extension_errors-Returns c none h = ground arith
  extension_errors-Returns c (some s) h = elim (Option-cases s.extensions) [
    | inl e ↦ ground arith
    | inr (es, e) ↦
        rw (e, extension_errors)
          (check_references-Returns (report_extension regexp yaml) (or_empty c.extensions) es
            (λ r. create-Returns regexp (extension_message r) yaml _ r error)
            (rw (e, or_empty) at h))
  ]

  -- The validator reports errors only, no warnings.
  pub validate_extensions-Reports :
      (parsed : ParsedData) → Reports error (validate_extensions regexp yaml parsed)
  unfolding validate_extensions
  validate_extensions-Reports no_object = tt
  validate_extensions-Reports (config c) = extension_errors-Reports c c.service

  pub validate_extensions-Returns :
      (parsed : ParsedData)
      → ExtensionsLiteral parsed
      → Returns (validate_extensions regexp yaml parsed)
  unfolding validate_extensions
  validate_extensions-Returns no_object h = ground arith
  validate_extensions-Returns (config c) h = extension_errors-Returns c c.service h
