-- ===== src/Validation/Pipeline/Outcome.antt =====
-- The pipeline validator reports errors of severity "error" only, and returns where every pipeline
-- is there and no name holds a syntax character of regular expressions.
use otel_hive.Base.{
  ◌≡◌, refl, subst, Bool, true, inl, inr, Option, none, some, List, [], ◌∷◌, All, Bool-cases,
  Option-cases, arith, In, In-cons,
}
use otel_hive.Text.{Text}
use otel_hive.Validation.Types.{
  Throws, ok, throws, Returns, Severity, error, ValidationError, Pipeline, Service, OTelConfig,
  ParsedData, no_object, config,
}
use otel_hive.Validation.Outcome.{
  Reports, Reports-append, Reports-append3, Reports-cons, Returns-append, Returns-append3,
  >>=-throws,
}
use otel_hive.Validation.Patterns.{is_literal}
use otel_hive.Validation.Position.{create_validation_error}
use otel_hive.Validation.Position.Total.{create_validation_error_lem, create_validation_error-eq-ok}
use otel_hive.Validation.Pipeline.{
  has, or_empty, Defined, defined_components, check_references, receiver_message, processor_message,
  exporter_message, report_receiver, report_processor, report_exporter, pipeline_errors,
  all_pipeline_errors, service_errors, validate_pipelines,
}

pub check_references-Reports :
    (s : Severity) (report : Text → Throws ValidationError) (defined refs : List Text)
    → ((r : Text) (e : ValidationError) → report r ≡ ok e → e.severity ≡ s)
    → Reports s (check_references report defined refs)
unfolding check_references
check_references-Reports s report defined [] h = tt
check_references-Reports s report defined (r ∷ rs) h = elim (Bool-cases (has defined r)) [
  | inl known ↦ rw (known, check_references) (check_references-Reports s report defined rs h)
  | inr unknown ↦
      rw (unknown, check_references)
        (Reports-cons s (report r) (check_references report defined rs) (h r)
          (check_references-Reports s report defined rs h))
]

module _ (regexp : Text → Option (Text → Bool)) (yaml : Text) where
  report-severity :
      (message : Text) (path : List Text) (component : Option Text) (severity : Severity)
      {e : ValidationError}
      → create_validation_error regexp message yaml path component severity ≡ ok e
      → e.severity ≡ severity
  report-severity message path component severity h =
      (create_validation_error-eq-ok regexp message yaml path component severity h).1

  all_pipeline_errors-Reports :
      (d : Defined) (pipelines : List (Text × Option Pipeline))
      → Reports error (all_pipeline_errors regexp yaml d pipelines)
  unfolding all_pipeline_errors pipeline_errors report_receiver report_processor report_exporter
  all_pipeline_errors-Reports d [] = tt
  all_pipeline_errors-Reports d ((name, none) ∷ pipelines) = tt
  all_pipeline_errors-Reports d ((name, some p) ∷ pipelines) =
      Reports-append error (pipeline_errors regexp yaml d name p)
        (all_pipeline_errors regexp yaml d pipelines)
        (Reports-append3 error _ _ _
          (check_references-Reports error (report_receiver regexp yaml name) d.receivers
            (or_empty p.receivers) (λ r e h. report-severity _ _ _ error h))
          (check_references-Reports error (report_processor regexp yaml name) d.processors
            (or_empty p.processors) (λ r e h. report-severity _ _ _ error h))
          (check_references-Reports error (report_exporter regexp yaml name) d.exporters
            (or_empty p.exporters) (λ r e h. report-severity _ _ _ error h)))
        (all_pipeline_errors-Reports d pipelines)

-- The validator reports errors only, no warnings.
pub validate_pipelines-Reports :
    (regexp : Text → Option (Text → Bool)) (yaml : Text) (parsed : ParsedData)
    → Reports error (validate_pipelines regexp yaml parsed)
unfolding validate_pipelines service_errors
validate_pipelines-Reports regexp yaml no_object = tt
validate_pipelines-Reports regexp yaml (config c) = service_errors-Reports c.service
  where
    service_errors-Reports : (s : Option Service) → Reports error (service_errors regexp yaml c s)
    service_errors-Reports none = tt
    service_errors-Reports (some s) = elim (Option-cases s.pipelines) [
      | inl e ↦ rw (e, service_errors) tt
      | inr (ps, e) ↦
          rw (e, service_errors) (all_pipeline_errors-Reports regexp yaml (defined_components c) ps)
    ]

-- No syntax character of regular expressions in a name.
abbrev pub AllLiteral : Option (List Text) → Type 0
AllLiteral names = All (λ name. is_literal name ≡ true) (or_empty names)

pub check_references-Returns :
    (report : Text → Throws ValidationError) (defined refs : List Text)
    → ((r : Text) → is_literal r ≡ true → Returns (report r))
    → All (λ r. is_literal r ≡ true) refs
    → Returns (check_references report defined refs)
unfolding check_references
check_references-Returns report defined [] h a = ground arith
check_references-Returns report defined (r ∷ rs) h a =
    ground (arith, h r a.0, check_references-Returns report defined rs h a.1)

pub create-Returns :
    (regexp : Text → Option (Text → Bool)) (message yaml : Text) (path : List Text) (r : Text)
    (severity : Severity)
    → is_literal r ≡ true
    → Returns (create_validation_error regexp message yaml path (some r) severity)
create-Returns regexp message yaml path r severity literal =
    let (e, made, _, _) =
      create_validation_error_lem regexp message yaml path (some r) severity
        (λ name same. subst (λ n. is_literal n ≡ true) (ground arith) literal) in
    rw made (ground arith)

-- No pipeline is `null`, and the names of all of them match themselves.
abbrev pub PipelinesAreLiteral : List (Text × Option Pipeline) → Type 0
PipelinesAreLiteral [] = Unit
PipelinesAreLiteral ((name, none) ∷ pipelines) = ⊥
PipelinesAreLiteral ((name, some p) ∷ pipelines) =
    (AllLiteral p.receivers × AllLiteral p.processors × AllLiteral p.exporters)
    × PipelinesAreLiteral pipelines

module _ (regexp : Text → Option (Text → Bool)) (yaml : Text) where
  pipeline_errors-Returns :
      (d : Defined) (name : Text) (p : Pipeline)
      → AllLiteral p.receivers × AllLiteral p.processors × AllLiteral p.exporters
      → Returns (pipeline_errors regexp yaml d name p)
  unfolding pipeline_errors report_receiver report_processor report_exporter
  pipeline_errors-Returns d name p (r, k, e) =
      Returns-append3 _ _ _
        (check_references-Returns (report_receiver regexp yaml name) d.receivers
          (or_empty p.receivers)
          (λ t. create-Returns regexp (receiver_message name t) yaml _ t error) r)
        (check_references-Returns (report_processor regexp yaml name) d.processors
          (or_empty p.processors)
          (λ t. create-Returns regexp (processor_message name t) yaml _ t error) k)
        (check_references-Returns (report_exporter regexp yaml name) d.exporters
          (or_empty p.exporters)
          (λ t. create-Returns regexp (exporter_message name t) yaml _ t error) e)

  all_pipeline_errors-Returns :
      (d : Defined) (pipelines : List (Text × Option Pipeline))
      → PipelinesAreLiteral pipelines
      → Returns (all_pipeline_errors regexp yaml d pipelines)
  unfolding all_pipeline_errors
  all_pipeline_errors-Returns d [] h = ground arith
  all_pipeline_errors-Returns d ((name, none) ∷ pipelines) h = absurd h
  all_pipeline_errors-Returns d ((name, some p) ∷ pipelines) (h, hs) =
      Returns-append _ _ (pipeline_errors-Returns d name p h)
        (all_pipeline_errors-Returns d pipelines hs)

  -- One `null` pipeline stops the validator, whatever the others hold.
  all_pipeline_errors_null :
      (d : Defined) {name : Text} (pipelines : List (Text × Option Pipeline))
      → In (name, none) pipelines
      → all_pipeline_errors regexp yaml d pipelines ≡ throws
  unfolding all_pipeline_errors
  all_pipeline_errors_null d [] i = elim i [ ]
  all_pipeline_errors_null d ((k, none) ∷ pipelines) i = refl
  all_pipeline_errors_null d ((k, some p) ∷ pipelines) i = elim (In-cons i) [
    | inl e ↦ absurd (cc)
    | inr j ↦
        >>=-throws (pipeline_errors regexp yaml d k p) _
          (λ es. rw (all_pipeline_errors_null d pipelines j))
  ]

abbrev ServiceIsLiteral : Option Service → Type 0
ServiceIsLiteral none = Unit
ServiceIsLiteral (some s) = PipelinesAreLiteral (or_empty s.pipelines)

abbrev pub PipelinesLiteral : ParsedData → Type 0
PipelinesLiteral no_object = Unit
PipelinesLiteral (config c) = ServiceIsLiteral c.service

service_errors-Returns :
    (regexp : Text → Option (Text → Bool)) (yaml : Text) (c : OTelConfig) (s : Option Service)
    → ServiceIsLiteral s
    → Returns (service_errors regexp yaml c s)
unfolding service_errors
service_errors-Returns regexp yaml c none h = ground arith
service_errors-Returns regexp yaml c (some s) h = elim (Option-cases s.pipelines) [
  | inl e ↦ ground arith
  | inr (ps, e) ↦
      rw (e, service_errors)
        (all_pipeline_errors-Returns regexp yaml (defined_components c) ps (rw (e, or_empty) at h))
]

-- The validator returns where no pipeline is `null` and the names match themselves.
pub validate_pipelines-Returns :
    (regexp : Text → Option (Text → Bool)) (yaml : Text) (parsed : ParsedData)
    → PipelinesLiteral parsed
    → Returns (validate_pipelines regexp yaml parsed)
unfolding validate_pipelines
validate_pipelines-Returns regexp yaml no_object h = ground arith
validate_pipelines-Returns regexp yaml (config c) h =
    service_errors-Returns regexp yaml c c.service h

-- The service of the configuration lists a pipeline with no value.
pub record HasNullPipeline (c : OTelConfig) : Type 0 where
  pub service : Service
  pub has_service : c.service ≡ some service
  pub pipelines : List (Text × Option Pipeline)
  pub has_pipelines : service.pipelines ≡ some pipelines
  pub name : Text
  pub listed : In (name, none) pipelines

pub validate_pipelines_null :
    (regexp : Text → Option (Text → Bool)) (yaml : Text) (c : OTelConfig)
    → HasNullPipeline c
    → validate_pipelines regexp yaml (config c) ≡ throws
unfolding validate_pipelines service_errors
validate_pipelines_null regexp yaml c n =
    rw (n.has_service, service_errors, n.has_pipelines)
      (all_pipeline_errors_null regexp yaml (defined_components c) n.pipelines n.listed)
