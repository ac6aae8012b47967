-- ===== src/Validation/EmptyPipeline/Outcome.antt =====
-- The validator of empty pipelines reports warnings only, and reports nothing exactly where every
-- pipeline has a receiver and an exporter.
use otel_hive.Base.{
  ◌≡◌, ◌≢◌, refl, ◌↔◌, inl, inr, Bool, Option, none, some, List, [], ◌∷◌, Option-cases, arith,
}
use otel_hive.Text.{Text}
use otel_hive.Validation.Types.{
  Throws, ok, throws, ◌>>=◌, warning, Pipeline, Service, ParsedData, no_object, config,
}
use otel_hive.Validation.Outcome.{Reports, Reports-append3}
use otel_hive.Validation.Position.Total.{create_validation_error-eq-ok}
use otel_hive.Validation.Pipeline.{or_empty}
use otel_hive.Validation.Pipeline.Resolves.{>>=-append3-eq-nil}
use otel_hive.Validation.EmptyPipeline.{
  warn, warn_empty, all_pipeline_warnings, service_warnings, validate_empty_pipelines,
  no_receiver_message, no_exporter_message,
}

-- Every pipeline is there, with a receiver and an exporter.
abbrev pub AllComplete : List (Text × Option Pipeline) → Type 0
AllComplete [] = Unit
AllComplete ((name, none) ∷ pipelines) = ⊥
AllComplete ((name, some p) ∷ pipelines) =
    (or_empty p.receivers ≢ []) × (or_empty p.exporters ≢ []) × AllComplete pipelines

abbrev ServiceComplete : Option Service → Type 0
ServiceComplete none = Unit
ServiceComplete (some s) = AllComplete (or_empty s.pipelines)

abbrev pub PipelinesComplete : ParsedData → Type 0
PipelinesComplete no_object = Unit
PipelinesComplete (config c) = ServiceComplete c.service

module _ (regexp : Text → Option (Text → Bool)) (yaml : Text) where
  warn-Reports :
      (message name : Text) → Reports warning (warn regexp yaml message name >>= λ e. ok (e ∷ []))
  unfolding warn
  warn-Reports message name = go (warn regexp yaml message name) refl
    where
      go :
          (m : Throws _)
          → warn regexp yaml message name ≡ m
          → Reports warning (m >>= λ e. ok (e ∷ []))
      go (ok e) h = ((create_validation_error-eq-ok regexp message yaml _ _ warning h).1, tt)
      go throws h = tt

  warn_empty-Reports :
      (message name : Text) (items : Option (List Text))
      → Reports warning (warn_empty regexp yaml message name items)
  unfolding warn_empty
  warn_empty-Reports message name none = warn-Reports message name
  warn_empty-Reports message name (some []) = warn-Reports message name
  warn_empty-Reports message name (some (x ∷ xs)) = tt

  all_pipeline_warnings-Reports :
      (pipelines : List (Text × Option Pipeline))
      → Reports warning (all_pipeline_warnings regexp yaml pipelines)
  unfolding all_pipeline_warnings
  all_pipeline_warnings-Reports [] = tt
  all_pipeline_warnings-Reports ((name, none) ∷ pipelines) = tt
  all_pipeline_warnings-Reports ((name, some p) ∷ pipelines) =
      Reports-append3 warning _ _ _ (warn_empty-Reports (no_receiver_message name) name p.receivers)
        (warn_empty-Reports (no_exporter_message name) name p.exporters)
        (all_pipeline_warnings-Reports pipelines)

  service_warnings-Reports : (s : Option Service) → Reports warning (service_warnings regexp yaml s)
  unfolding service_warnings
  service_warnings-Reports none = tt
  service_warnings-Reports (some s) = elim (Option-cases s.pipelines) [
    | inl e ↦ rw (e, service_warnings) tt
    | inr (ps, e) ↦ rw (e, service_warnings) (all_pipeline_warnings-Reports ps)
  ]

  -- The validator reports warnings only.
  pub validate_empty_pipelines-Reports :
      (parsed : ParsedData) → Reports warning (validate_empty_pipelines regexp yaml parsed)
  unfolding validate_empty_pipelines
  validate_empty_pipelines-Reports no_object = tt
  validate_empty_pipelines-Reports (config c) = service_warnings-Reports c.service

  warn_empty-eq-nil :
      (message name : Text) (items : Option (List Text))
      → (warn_empty regexp yaml message name items ≡ ok []) ↔ (or_empty items ≢ [])
  unfolding warn_empty
  warn_empty-eq-nil message name none = ground arith
  warn_empty-eq-nil message name (some []) = ground arith
  warn_empty-eq-nil message name (some (x ∷ xs)) = ground arith

  all_pipeline_warnings-eq-nil :
      (pipelines : List (Text × Option Pipeline))
      → (all_pipeline_warnings regexp yaml pipelines ≡ ok []) ↔ AllComplete pipelines
  unfolding all_pipeline_warnings
  all_pipeline_warnings-eq-nil [] = (λ _. tt, λ _. refl)
  all_pipeline_warnings-eq-nil ((name, none) ∷ pipelines) = (λ h. ground arith, λ h. absurd h)
  all_pipeline_warnings-eq-nil ((name, some p) ∷ pipelines) =
      let (to, from) = >>=-append3-eq-nil _ _ _ in
      let (to_r, from_r) = warn_empty-eq-nil (no_receiver_message name) name p.receivers in
      let (to_e, from_e) = warn_empty-eq-nil (no_exporter_message name) name p.exporters in
      let (to_ps, from_ps) = all_pipeline_warnings-eq-nil pipelines in
      (
        λ h. let (r, e, ps) = to h in (to_r r, to_e e, to_ps ps),
        λ h. from (from_r h.0, from_e h.1, from_ps h.2),
      )

  service_warnings-eq-nil :
      (s : Option Service) → (service_warnings regexp yaml s ≡ ok []) ↔ ServiceComplete s
  unfolding service_warnings
  service_warnings-eq-nil none = (λ _. tt, λ _. refl)
  service_warnings-eq-nil (some s) = elim (Option-cases s.pipelines) [
    | inl e ↦ rw (e, or_empty) (λ _. tt, λ _. refl)
    | inr (ps, e) ↦ rw (e, or_empty) (all_pipeline_warnings-eq-nil ps)
  ]

-- The validator reports nothing exactly where every pipeline is there, with at least one receiver
-- and one exporter.
pub validate_empty_pipelines-eq-nil :
    (regexp : Text → Option (Text → Bool)) (yaml_content : Text) (parsed : ParsedData)
    → (validate_empty_pipelines regexp yaml_content parsed ≡ ok []) ↔ PipelinesComplete parsed
unfolding validate_empty_pipelines
validate_empty_pipelines-eq-nil regexp yaml no_object = (λ _. tt, λ _. refl)
validate_empty_pipelines-eq-nil regexp yaml (config c) =
    service_warnings-eq-nil regexp yaml c.service
