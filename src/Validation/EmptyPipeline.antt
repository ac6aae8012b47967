-- ===== src/Validation/EmptyPipeline.antt =====
-- validators/otel-empty-pipeline-validator.ts: pipelines have a receiver and an exporter.
pub mod Outcome
use otel_hive.Base.{
  ◌≡◌, refl, ◌↔◌, inl, inr, Bool, Option, none, some, List, [], ◌∷◌, ◌++◌, All, Option-cases, arith,
}
use otel_hive.Text.{Text, text}
use otel_hive.Validation.Types.{
  Throws, ok, throws, ◌>>=◌, ValidationError, warning, Pipeline, Service, OTelConfig, ParsedData,
  no_object, config,
}
use otel_hive.Validation.Position.{create_validation_error}

abbrev pub no_receiver_message : Text → Text
no_receiver_message pipeline_name =
    text "Pipeline '" ++ pipeline_name ++ text "' must have at least one receiver"

abbrev pub no_exporter_message : Text → Text
no_exporter_message pipeline_name =
    text "Pipeline '" ++ pipeline_name ++ text "' must have at least one exporter"

module _ (regexp : Text → Option (Text → Bool)) (yaml_content : Text) where
  pub warn : Text → Text → Throws ValidationError
  warn message pipeline_name =
      create_validation_error regexp message yaml_content
        (text "service" ∷ text "pipelines" ∷ pipeline_name ∷ []) none warning

  -- A warning where the list is absent or empty.
  pub warn_empty : Text → Text → Option (List Text) → Throws (List ValidationError)
  warn_empty message pipeline_name none = do e ← warn message pipeline_name; ok (e ∷ [])
  warn_empty message pipeline_name (some []) = do e ← warn message pipeline_name; ok (e ∷ [])
  warn_empty message pipeline_name (some (x ∷ xs)) = ok []

  pub all_pipeline_warnings : List (Text × Option Pipeline) → Throws (List ValidationError)
  unfolding warn_empty
  all_pipeline_warnings [] = ok []
  all_pipeline_warnings ((name, none) ∷ pipelines) = throws
  all_pipeline_warnings ((name, some p) ∷ pipelines) = do
    rs ← warn_empty (no_receiver_message name) name p.receivers
    es ← warn_empty (no_exporter_message name) name p.exporters
    rest ← all_pipeline_warnings pipelines
    ok (rs ++ es ++ rest)

  pub service_warnings : Option Service → Throws (List ValidationError)
  service_warnings none = ok []
  service_warnings (some s) = elim s.pipelines [
    | none ↦ ok []
    | some pipelines ↦ all_pipeline_warnings pipelines
  ]

  -- `OTelEmptyPipelineValidator.validate`
  unfoldable pub validate_empty_pipelines : ParsedData → Throws (List ValidationError)
  unfolding service_warnings all_pipeline_warnings warn
  validate_empty_pipelines no_object = ok []
  validate_empty_pipelines (config c) = service_warnings c.service
