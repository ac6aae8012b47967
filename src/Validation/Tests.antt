-- ===== src/Validation/Tests.antt =====
-- Runs of the validation on small configurations, and instances of its theorems.
use otel_hive.Base.{
  ◌≡◌, refl, subst, ◌↔◌, Bool, true, false, Option, none, some, List, [], ◌∷◌, ◌++◌, here, there,
  In,
}
use otel_hive.Text.{Text, text, split, trim, index_of, text_eq, is_word, starts_with}
use otel_hive.Validation.Types.{ok, Pipeline, OTelConfig, config, ValidationError, error}
use otel_hive.Validation.Patterns.{is_literal}
use otel_hive.Validation.Position.{find_yaml_position, position_at, create_validation_error}
use otel_hive.Validation.Position.Covers.{IsTarget}
use otel_hive.Validation.Position.Spans.{find_yaml_position-IsTarget}
use otel_hive.Validation.Pipeline.Resolves.{Resolves, validate_pipelines-eq-nil}
use otel_hive.Validation.Pipeline.{has, check_references, validate_pipelines}
use otel_hive.Validation.Extensions.{validate_extensions, ExtensionsResolve}
use otel_hive.Validation.EmptyPipeline.{validate_empty_pipelines}
use otel_hive.Validation.Run.{
  Validator, default_validators, validate_yaml_config, all_errors, error_key,
}
use otel_hive.Validation.EmptyPipeline.Outcome.{PipelinesComplete, validate_empty_pipelines-eq-nil}
use otel_hive.Validation.Run.Unique.{IsDeduplicated, validate_yaml_config-IsDeduplicated}
use otel_hive.Validation.Run.Valid.{validate_yaml_config_valid_iff, null_pipeline_hides_errors}

abbrev no_regexp : Text → Option (Text → Bool)
no_regexp name = none

abbrev newline : Text
newline = 10 ∷ []

-- service:
--   pipelines:
--     traces:
--       receivers: [otlphttp, otlp]
abbrev sample : Text
sample =
    text "service:"
    ++ (newline
        ++ (text "  pipelines:"
            ++ (newline
                ++ (text "    traces:" ++ (newline ++ text "      receivers: [otlphttp, otlp]")))))

abbrev receivers_path : List Text
receivers_path = text "service" ∷ text "pipelines" ∷ text "traces" ∷ text "receivers" ∷ []

-- The column is that of the first occurrence, inside "otlphttp", not of the component.
finds_prefix :
    find_yaml_position no_regexp sample receivers_path (some (text "otlp"))
    ≡ ok (some (position_at 3 19 4))
unfolding find_yaml_position split trim index_of text_eq is_word
finds_prefix = refl

-- One pipeline, whose receiver is defined under connectors and whose exporter is not defined.
abbrev traces : Pipeline
traces = record {
  receivers = some (text "count" ∷ []);
  processors = none;
  exporters = some (text "debug" ∷ []);
}

abbrev collector : OTelConfig
collector = record {
  receivers = none;
  processors = none;
  exporters = some (text "otlp" ∷ []);
  extensions = some (text "zpages" ∷ []);
  connectors = some (text "count" ∷ []);
  service = some (record {
    pipelines = some ((text "traces", some traces) ∷ []);
    extensions = some (text "zpages" ∷ []);
  });
}

-- The same with a second pipeline that has no value.
abbrev collector_null : OTelConfig
collector_null = record collector {
  service = some (record {
    pipelines = some ((text "traces", some traces) ∷ (text "logs", none) ∷ []);
    extensions = some (text "zpages" ∷ []);
  });
}

undefined_exporter :
    (validate_yaml_config sample (config collector) (default_validators no_regexp)).valid ≡ false
unfolding validate_yaml_config validate_pipelines validate_extensions validate_empty_pipelines
    check_references has create_validation_error error_key split trim index_of text_eq is_word
    starts_with
undefined_exporter = refl

find_yaml_position-IsTarget_example :
    IsTarget (split 10 sample) receivers_path (some (text "otlp")) (position_at 3 19 4)
unfolding is_literal
find_yaml_position-IsTarget_example =
    find_yaml_position-IsTarget no_regexp sample receivers_path (some (text "otlp"))
      (position_at 3 19 4)
      (λ name e. let same : text "otlp" ≡ name = cc in subst (λ n. is_literal n ≡ true) same refl)
      finds_prefix

validate_pipelines-eq-nil_example :
    (validate_pipelines no_regexp sample (config collector) ≡ ok []) ↔ Resolves (config collector)
validate_pipelines-eq-nil_example = validate_pipelines-eq-nil no_regexp sample (config collector)

validate_empty_pipelines-eq-nil_example :
    (validate_empty_pipelines no_regexp sample (config collector) ≡ ok [])
    ↔ PipelinesComplete (config collector)
validate_empty_pipelines-eq-nil_example =
    validate_empty_pipelines-eq-nil no_regexp sample (config collector)

validate_yaml_config-IsDeduplicated_example :
    IsDeduplicated
      (all_errors sample (config collector) (default_validators no_regexp))
      (validate_yaml_config sample (config collector) (default_validators no_regexp)).errors
validate_yaml_config-IsDeduplicated_example =
    validate_yaml_config-IsDeduplicated sample (config collector) (default_validators no_regexp)

validate_yaml_config_valid_iff_example :
    ((validate_yaml_config sample (config collector) (default_validators no_regexp)).valid ≡ true)
    ↔ (Resolves (config collector) × ExtensionsResolve (config collector))
unfolding is_literal
validate_yaml_config_valid_iff_example =
    validate_yaml_config_valid_iff no_regexp sample (config collector)
      (((refl, tt), tt, (refl, tt)), tt) (refl, tt)

null_pipeline_hides_errors_example :
    ((validate_yaml_config sample (config collector_null) (default_validators no_regexp)).valid
      ≡ true)
    ↔ ExtensionsResolve (config collector_null)
unfolding is_literal
null_pipeline_hides_errors_example =
    null_pipeline_hides_errors no_regexp sample collector_null
      (record {
        service = _;
        has_service = refl;
        pipelines = _;
        has_pipelines = refl;
        name = text "logs";
        listed = there here;
      })
      (refl, tt)

abbrev problem : ValidationError
problem = record {
  message = text "unknown receiver";
  severity = error;
  line = 12;
  column = 5;
  end_line = none;
  end_column = none;
  path = none;
}

abbrev noisy : Validator
noisy = record { name = text "noisy"; validate = λ yaml parsed. ok (problem ∷ problem ∷ []) }

reported : In problem (all_errors sample (config collector) (noisy ∷ []))
unfolding all_errors
reported = there here
