-- ===== src/Validation/Run/Valid.antt =====
-- When a configuration is called valid.
use otel_hive.Base.{
  ◌≡◌, refl, ◌↔◌, Bool, true, false, Option, List, [], ◌∷◌, ◌++◌, All, All-append, append-nil,
  append_assoc, ◌∙◌, arith,
}
use otel_hive.Text.{Text}
use otel_hive.Validation.Types.{
  Throws, ok, throws, Returns, Severity, error, warning, ValidationError, OTelConfig, ParsedData,
  config,
}
use otel_hive.Validation.Outcome.{Reports}
use otel_hive.Validation.Pipeline.{has, validate_pipelines}
use otel_hive.Validation.Pipeline.Resolves.{Resolves, validate_pipelines-eq-nil}
use otel_hive.Validation.Pipeline.Outcome.{
  PipelinesLiteral, validate_pipelines-Reports, validate_pipelines-Returns, HasNullPipeline,
  validate_pipelines_null,
}
use otel_hive.Validation.Extensions.{
  ExtensionsResolve, validate_extensions, validate_extensions-eq-nil,
}
use otel_hive.Validation.Extensions.Outcome.{
  ExtensionsLiteral, validate_extensions-Reports, validate_extensions-Returns,
}
use otel_hive.Validation.EmptyPipeline.{validate_empty_pipelines}
use otel_hive.Validation.EmptyPipeline.Outcome.{validate_empty_pipelines-Reports}
use otel_hive.Validation.Run.{
  default_validators, error_key, all_errors, unique_errors, no_severe, validate_yaml_config,
}

-- The errors of an outcome; none, if it throws.
abbrev reported : Throws (List ValidationError) → List ValidationError
reported (ok es) = es
reported throws = []

Reports-reported :
    (s : Severity) (m : Throws (List ValidationError))
    → Reports s m
    → All (λ e. e.severity ≡ s) (reported m)
Reports-reported s (ok es) h = h
Reports-reported s throws h = tt

all_errors-default :
    (regexp : Text → Option (Text → Bool)) (yaml : Text) (parsed : ParsedData)
    → all_errors yaml parsed (default_validators regexp)
      ≡ reported (validate_pipelines regexp yaml parsed)
        ++ (reported (validate_extensions regexp yaml parsed)
            ++ (reported (validate_empty_pipelines regexp yaml parsed) ++ []))
unfolding all_errors
all_errors-default regexp yaml parsed = ground arith

no_severe_warnings :
    (seen : List Text) (es : List ValidationError)
    → All (λ e. e.severity ≡ warning) es
    → no_severe (unique_errors seen es) ≡ true
unfolding no_severe unique_errors
no_severe_warnings seen [] h = refl
no_severe_warnings seen (e ∷ es) h =
    ground (arith, no_severe_warnings seen es h.1, no_severe_warnings (error_key e ∷ seen) es h.1)

no_severe_error :
    (e : ValidationError) (es : List ValidationError)
    → e.severity ≡ error
    → no_severe (unique_errors [] (e ∷ es)) ≡ false
unfolding no_severe unique_errors has
no_severe_error e es h = rw h

-- Errors first, then warnings: the result is valid exactly where there is no error.
no_severe-append :
    (es ws : List ValidationError)
    → All (λ e. e.severity ≡ error) es
    → All (λ e. e.severity ≡ warning) ws
    → (no_severe (unique_errors [] (es ++ ws)) ≡ true) ↔ (es ≡ [])
no_severe-append [] ws h k = (λ _. refl, λ _. no_severe_warnings [] ws k)
no_severe-append (e ∷ es) ws h k =
    let failed = no_severe_error e (es ++ ws) h.0 in (λ v. absurd (cc), λ n. absurd (cc))

append-eq-nil : {A : Type 0} (xs ys : List A) → (xs ++ ys ≡ []) ↔ ((xs ≡ []) × (ys ≡ []))
append-eq-nil [] ys = ground arith
append-eq-nil (x ∷ xs) ys = ground arith

reported-eq-nil : (m : Throws (List ValidationError)) → Returns m → (reported m ≡ []) ↔ (m ≡ ok [])
reported-eq-nil (ok es) h = ground arith
reported-eq-nil throws h = absurd (h refl)

module _ (regexp : Text → Option (Text → Bool)) (yaml : Text) (parsed : ParsedData) where
  errors_first :
      all_errors yaml parsed (default_validators regexp)
      ≡ (reported (validate_pipelines regexp yaml parsed)
          ++ reported (validate_extensions regexp yaml parsed))
        ++ reported (validate_empty_pipelines regexp yaml parsed)
  errors_first = all_errors-default regexp yaml parsed ∙ simp (append-nil, append_assoc)

  valid_iff_no_errors :
      ((validate_yaml_config yaml parsed (default_validators regexp)).valid ≡ true) ↔ (
        (reported (validate_pipelines regexp yaml parsed) ≡ [])
        × (reported (validate_extensions regexp yaml parsed) ≡ []))
  unfolding validate_yaml_config
  valid_iff_no_errors =
      let ps = reported (validate_pipelines regexp yaml parsed) in
      let xs = reported (validate_extensions regexp yaml parsed) in
      let ws = reported (validate_empty_pipelines regexp yaml parsed) in
      let (to, from) =
        no_severe-append (ps ++ xs) ws
          (All-append _ ps xs
            (Reports-reported error _ (validate_pipelines-Reports regexp yaml parsed))
            (Reports-reported error _ (validate_extensions-Reports regexp yaml parsed)))
          (Reports-reported warning _ (validate_empty_pipelines-Reports regexp yaml parsed)) in
      let (split_nil, join_nil) = append-eq-nil ps xs in
      rw errors_first (λ v. split_nil (to v), λ n. from (join_nil n))

-- With names that match themselves and no pipeline left empty in the text, the configuration is
-- called valid exactly where every component that a pipeline names and every extension that the
-- service names is defined, whatever warnings there are.
pub validate_yaml_config_valid_iff :
    (regexp : Text → Option (Text → Bool)) (yaml_content : Text) (parsed : ParsedData)
    → PipelinesLiteral parsed
    → ExtensionsLiteral parsed
    → ((validate_yaml_config yaml_content parsed (default_validators regexp)).valid ≡ true)
      ↔ (Resolves parsed × ExtensionsResolve parsed)
validate_yaml_config_valid_iff regexp yaml parsed lp le =
    let (to, from) = valid_iff_no_errors regexp yaml parsed in
    let (to_p, from_p) = reported-eq-nil _ (validate_pipelines-Returns regexp yaml parsed lp) in
    let (to_e, from_e) = reported-eq-nil _ (validate_extensions-Returns regexp yaml parsed le) in
    let (resolve, unresolve) = validate_pipelines-eq-nil regexp yaml parsed in
    let (extend, unextend) = validate_extensions-eq-nil regexp yaml parsed in
    (
      λ v. let (p, e) = to v in (resolve (to_p p), extend (to_e e)),
      λ h. from (from_p (unresolve h.0), from_e (unextend h.1)),
    )

-- A configuration that lists one pipeline with no value, and whose extensions have names that match
-- themselves, is called valid exactly when its extensions are defined: undefined components of its
-- other pipelines go unreported.
pub null_pipeline_hides_errors :
    (regexp : Text → Option (Text → Bool)) (yaml_content : Text) (c : OTelConfig)
    → HasNullPipeline c
    → ExtensionsLiteral (config c)
    → ((validate_yaml_config yaml_content (config c) (default_validators regexp)).valid ≡ true)
      ↔ ExtensionsResolve (config c)
null_pipeline_hides_errors regexp yaml c n le =
    let (to, from) = valid_iff_no_errors regexp yaml (config c) in
    let (to_e, from_e) =
      reported-eq-nil _ (validate_extensions-Returns regexp yaml (config c) le) in
    let (extend, unextend) = validate_extensions-eq-nil regexp yaml (config c) in
    (
      λ v. extend (to_e (to v).1),
      λ h. from (rw (validate_pipelines_null regexp yaml c n), from_e (unextend h)),
    )
