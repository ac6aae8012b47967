-- ===== src/Validation/Pipeline.antt =====
-- validators/otel-pipeline-validator.ts: the components that pipelines name are defined.
pub mod Resolves
pub mod Outcome
use otel_hive.Base.{Bool, true, false, ◌||◌, Option, none, some, List, [], ◌∷◌, ◌++◌, if◌then◌else◌}
use otel_hive.Text.{Text, text, text_eq}
use otel_hive.Validation.Types.{
  Throws, ok, throws, ◌>>=◌, ValidationError, Severity, error, Pipeline, Service, OTelConfig,
  ParsedData, no_object, config,
}
use otel_hive.Validation.Position.{create_validation_error}

-- `new Set(xs).has(x)`
unfoldable pub has : List Text → Text → Bool
has [] t = false
has (s ∷ ss) t = text_eq s t || has ss t

-- `Object.keys(section || {})`, and the items of a list that may be absent.
abbrev pub or_empty {ℓ} : {A : Type ℓ} → Option (List A) → List A
or_empty none = []
or_empty (some xs) = xs

pub record Defined : Type 0 where
  pub receivers : List Text
  pub processors : List Text
  pub exporters : List Text

-- Connectors count as receivers and as exporters.
abbrev pub defined_components : OTelConfig → Defined
defined_components c = record {
  receivers = or_empty c.receivers ++ or_empty c.connectors;
  processors = or_empty c.processors;
  exporters = or_empty c.exporters ++ or_empty c.connectors;
}

-- The loop over one list of references; `report` makes the error for one of them.
unfoldable pub check_references :
    (Text → Throws ValidationError) → List Text → List Text → Throws (List ValidationError)
check_references report defined [] = ok []
check_references report defined (reference ∷ references) =
    let rest = check_references report defined references in
    if has defined reference then rest else do e ← report reference; es ← rest; ok (e ∷ es)

abbrev pub receiver_message : Text → Text → Text
receiver_message pipeline_name receiver =
    text "Receiver '"
    ++ receiver
    ++ text "' is used in pipeline '"
    ++ pipeline_name
    ++ text "' but not defined in receivers section"

abbrev pub processor_message : Text → Text → Text
processor_message pipeline_name processor =
    text "Processor '"
    ++ processor
    ++ text "' is used in pipeline '"
    ++ pipeline_name
    ++ text "' but not defined in processors section"

abbrev pub exporter_message : Text → Text → Text
exporter_message pipeline_name exporter =
    text "Exporter '"
    ++ exporter
    ++ text "' is used in pipeline '"
    ++ pipeline_name
    ++ text "' but not defined in exporters section"

abbrev pub pipeline_path : Text → Text → List Text
pipeline_path pipeline_name section =
    text "service" ∷ text "pipelines" ∷ pipeline_name ∷ section ∷ []

module _ (regexp : Text → Option (Text → Bool)) (yaml_content : Text) where
  pub report_receiver : Text → Text → Throws ValidationError
  report_receiver name receiver =
      create_validation_error regexp (receiver_message name receiver) yaml_content
        (pipeline_path name (text "receivers")) (some receiver) error

  pub report_processor : Text → Text → Throws ValidationError
  report_processor name processor =
      create_validation_error regexp (processor_message name processor) yaml_content
        (pipeline_path name (text "processors")) (some processor) error

  pub report_exporter : Text → Text → Throws ValidationError
  report_exporter name exporter =
      create_validation_error regexp (exporter_message name exporter) yaml_content
        (pipeline_path name (text "exporters")) (some exporter) error

  pub pipeline_errors : Defined → Text → Pipeline → Throws (List ValidationError)
  pipeline_errors d name p = do
    rs ← check_references (report_receiver name) d.receivers (or_empty p.receivers)
    ps ← check_references (report_processor name) d.processors (or_empty p.processors)
    es ← check_references (report_exporter name) d.exporters (or_empty p.exporters)
    ok (rs ++ ps ++ es)

  -- A field of a `null` pipeline cannot be read.
  pub all_pipeline_errors : Defined → List (Text × Option Pipeline) → Throws (List ValidationError)
  all_pipeline_errors d [] = ok []
  all_pipeline_errors d ((name, none) ∷ pipelines) = throws
  all_pipeline_errors d ((name, some p) ∷ pipelines) = do
    es ← pipeline_errors d name p
    fs ← all_pipeline_errors d pipelines
    ok (es ++ fs)

  unfoldable pub service_errors : OTelConfig → Option Service → Throws (List ValidationError)
  unfolding all_pipeline_errors pipeline_errors report_receiver report_processor report_exporter
  service_errors c none = ok []
  service_errors c (some s) = elim s.pipelines [
    | none ↦ ok []
    | some pipelines ↦ all_pipeline_errors (defined_components c) pipelines
  ]

  -- `OTelPipelineValidator.validate`
  unfoldable pub validate_pipelines : ParsedData → Throws (List ValidationError)
  unfolding service_errors
  validate_pipelines no_object = ok []
  validate_pipelines (config c) = service_errors c c.service
