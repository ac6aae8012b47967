-- ===== src/Validation/Run.antt =====
-- index.ts: all validators are run, and errors that repeat are dropped.
pub mod Unique
pub mod Keys
pub mod Valid
use otel_hive.Base.{
  ℕ, zero, suc, ◌+◌, ◌/◌, ◌%◌, Bool, true, false, Option, List, [], ◌∷◌, ◌++◌, ◌==◌, if◌then◌else◌,
}
use otel_hive.Text.{Text, text, decimal}
use otel_hive.Validation.Types.{
  Throws, ok, throws, ValidationError, ValidationResult, Severity, error, warning, ParsedData,
}
use otel_hive.Validation.Pipeline.{has, validate_pipelines}
use otel_hive.Validation.Extensions.{validate_extensions}
use otel_hive.Validation.EmptyPipeline.{validate_empty_pipelines}

pub record Validator : Type 0 where
  pub name : Text
  pub validate : Text → ParsedData → Throws (List ValidationError)

abbrev pub default_validators : (Text → Option (Text → Bool)) → List Validator
default_validators regexp =
    record { name = text "otel-pipeline"; validate = validate_pipelines regexp }
    ∷ record { name = text "otel-extensions"; validate = validate_extensions regexp }
    ∷ record { name = text "otel-empty-pipeline"; validate = validate_empty_pipelines regexp }
    ∷ []

unfoldable pub error_key : ValidationError → Text
unfolding decimal
error_key e = e.message ++ text "|" ++ decimal e.line ++ text "|" ++ decimal e.column

-- `allErrors`; a validator that throws is logged and adds nothing.
unfoldable pub all_errors : Text → ParsedData → List Validator → List ValidationError
all_errors yaml_content parsed [] = []
all_errors yaml_content parsed (v ∷ vs) = elim (v.validate yaml_content parsed) [
  | ok errors ↦ errors ++ all_errors yaml_content parsed vs
  | throws ↦ all_errors yaml_content parsed vs
]

-- `uniqueErrors`; `seen` holds the keys met so far.
unfoldable pub unique_errors : List Text → List ValidationError → List ValidationError
unique_errors seen [] = []
unique_errors seen (e ∷ es) = elim (has seen (error_key e)) [
  | true ↦ unique_errors seen es
  | false ↦ e ∷ unique_errors (error_key e ∷ seen) es
]

-- No error is of severity "error".
unfoldable pub no_severe : List ValidationError → Bool
no_severe [] = true
no_severe (e ∷ es) = elim e.severity [ error ↦ false | warning ↦ no_severe es ]

unfoldable pub validate_yaml_config : Text → ParsedData → List Validator → ValidationResult
unfolding all_errors unique_errors no_severe
validate_yaml_config yaml_content parsed validators =
    let unique = unique_errors [] (all_errors yaml_content parsed validators) in
    record { valid = no_severe unique; errors = unique }
