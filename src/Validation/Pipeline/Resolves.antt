-- ===== src/Validation/Pipeline/Resolves.antt =====
-- When the pipelines of a configuration name defined components only.
use otel_hive.Base.{
  ◌≡◌, refl, ◌↔◌, ◌⊎◌, inl, inr, Bool, true, Option, none, some, List, [], ◌∷◌, ◌++◌, All, In, here,
  there, In-append, In-append_left, In-append_right, arith, Bool-cases, Option-cases, subst,
}
use otel_hive.Text.{Text, text_eq}
use otel_hive.Text.Laws.{text_eq→eq, text_eq_refl}
use otel_hive.Validation.Types.{
  Throws, ok, throws, ◌>>=◌, ValidationError, Pipeline, Service, OTelConfig, ParsedData, no_object,
  config,
}
use otel_hive.Validation.Pipeline.{
  has, or_empty, defined_components, check_references, pipeline_errors, all_pipeline_errors,
  service_errors, validate_pipelines, report_receiver, report_processor, report_exporter,
}

pub has-eq-true : (ss : List Text) (t : Text) → has ss t ≡ true → In t ss
unfolding has
has-eq-true [] t h = cc
has-eq-true (s ∷ ss) t h = elim (Bool-cases (text_eq s t)) [
  | inl same ↦ subst (λ u. In u (s ∷ ss)) (text_eq→eq s t same) here
  | inr other ↦ there (has-eq-true ss t (rw (other, has) at h))
]

pub has-In : {t : Text} {ss : List Text} → In t ss → has ss t ≡ true
unfolding has
has-In {t} here = rw (text_eq_refl t)
has-In {t} (there {x} {xs} i) = elim (Bool-cases (text_eq x t)) [
  | inl same ↦ rw same
  | inr other ↦ rw other (has-In i)
]

-- Every reference of the list is among the keys.
abbrev pub Resolve : List Text → List Text → Type 0
Resolve defined = All (λ reference. In reference defined)

pub check_references-eq-nil :
    (report : Text → Throws ValidationError) (defined references : List Text)
    → (check_references report defined references ≡ ok []) ↔ Resolve defined references
unfolding check_references
check_references-eq-nil report defined [] = (λ _. tt, λ _. refl)
check_references-eq-nil report defined (r ∷ rs) =
    let (to, from) = check_references-eq-nil report defined rs in
    (
      λ h. elim (Bool-cases (has defined r)) [
        | inl known ↦ (has-eq-true defined r known, to (rw (known, check_references) at h))
        | inr unknown ↦ absurd (ground arith)
      ],
      λ h. rw (has-In h.0) (from h.1),
    )

>>=-append-eq-nil :
    {A : Type 0} (m k : Throws (List A))
    → ((m >>= λ xs. k >>= λ ys. ok (xs ++ ys)) ≡ ok []) ↔ ((m ≡ ok []) × (k ≡ ok []))
>>=-append-eq-nil (ok []) (ok ys) = ground arith
>>=-append-eq-nil (ok (x ∷ xs)) (ok ys) = ground arith
>>=-append-eq-nil (ok xs) throws = ground arith
>>=-append-eq-nil throws k = ground arith

pub >>=-append3-eq-nil :
    {A : Type 0} (m k l : Throws (List A))
    → ((m >>= λ xs. k >>= λ ys. l >>= λ zs. ok (xs ++ ys ++ zs)) ≡ ok [])
      ↔ ((m ≡ ok []) × (k ≡ ok []) × (l ≡ ok []))
>>=-append3-eq-nil (ok []) (ok []) (ok zs) = ground arith
>>=-append3-eq-nil (ok []) (ok (y ∷ ys)) (ok zs) = ground arith
>>=-append3-eq-nil (ok (x ∷ xs)) (ok ys) (ok zs) = ground arith
>>=-append3-eq-nil (ok xs) (ok ys) throws = ground arith
>>=-append3-eq-nil (ok xs) throws l = ground arith
>>=-append3-eq-nil throws k l = ground arith

-- The names that a pipeline uses are keys of the sections that define them; a connector is a
-- receiver and an exporter.
pub record PipelineResolves (c : OTelConfig) (p : Pipeline) : Type 0 where
  pub receivers :
      All (λ r. In r (or_empty c.receivers) ⊎ In r (or_empty c.connectors)) (or_empty p.receivers)
  pub processors : All (λ r. In r (or_empty c.processors)) (or_empty p.processors)
  pub exporters :
      All (λ r. In r (or_empty c.exporters) ⊎ In r (or_empty c.connectors)) (or_empty p.exporters)

-- No pipeline is `null`, and all of them resolve.
abbrev pub AllResolve : OTelConfig → List (Text × Option Pipeline) → Type 0
AllResolve c [] = Unit
AllResolve c ((name, none) ∷ pipelines) = ⊥
AllResolve c ((name, some p) ∷ pipelines) = PipelineResolves c p × AllResolve c pipelines

abbrev pub ServiceResolves : OTelConfig → Option Service → Type 0
ServiceResolves c none = Unit
ServiceResolves c (some s) = AllResolve c (or_empty s.pipelines)

abbrev pub Resolves : ParsedData → Type 0
Resolves no_object = Unit
Resolves (config c) = ServiceResolves c c.service

Resolve-append :
    (xs ys refs : List Text) → Resolve (xs ++ ys) refs ↔ All (λ r. In r xs ⊎ In r ys) refs
Resolve-append xs ys [] = (λ h. h, λ h. h)
Resolve-append xs ys (r ∷ rs) =
    let (to, from) = Resolve-append xs ys rs in
    (
      λ h. (In-append xs h.0, to h.1),
      λ h. (elim h.0 [ inl i ↦ In-append_left ys i | inr i ↦ In-append_right xs i ], from h.1),
    )

module _ (regexp : Text → Option (Text → Bool)) (yaml : Text) where
  pipeline_errors-eq-nil :
      (c : OTelConfig) (name : Text) (p : Pipeline)
      → (pipeline_errors regexp yaml (defined_components c) name p ≡ ok []) ↔ PipelineResolves c p
  unfolding pipeline_errors
  pipeline_errors-eq-nil c name p =
      let d = defined_components c in
      let (to, from) = >>=-append3-eq-nil _ _ _ in
      let (to_r, from_r) =
        check_references-eq-nil (report_receiver regexp yaml name) d.receivers
          (or_empty p.receivers) in
      let (to_p, from_p) =
        check_references-eq-nil (report_processor regexp yaml name) d.processors
          (or_empty p.processors) in
      let (to_e, from_e) =
        check_references-eq-nil (report_exporter regexp yaml name) d.exporters
          (or_empty p.exporters) in
      let (split_r, join_r) =
        Resolve-append (or_empty c.receivers) (or_empty c.connectors) (or_empty p.receivers) in
      let (split_e, join_e) =
        Resolve-append (or_empty c.exporters) (or_empty c.connectors) (or_empty p.exporters) in
      (
        λ h.
            let (r, k, e) = to h in
            record {
              receivers = split_r (to_r r);
              processors = to_p k;
              exporters = split_e (to_e e);
            },
        λ h. from (from_r (join_r h.receivers), from_p h.processors, from_e (join_e h.exporters)),
      )

  all_pipeline_errors-eq-nil :
      (c : OTelConfig) (pipelines : List (Text × Option Pipeline))
      → (all_pipeline_errors regexp yaml (defined_components c) pipelines ≡ ok [])
        ↔ AllResolve c pipelines
  unfolding all_pipeline_errors
  all_pipeline_errors-eq-nil c [] = (λ _. tt, λ _. refl)
  all_pipeline_errors-eq-nil c ((name, none) ∷ pipelines) = (λ h. ground arith, λ h. absurd h)
  all_pipeline_errors-eq-nil c ((name, some p) ∷ pipelines) =
      let d = defined_components c in
      let (to, from) =
        >>=-append-eq-nil (pipeline_errors regexp yaml d name p)
          (all_pipeline_errors regexp yaml d pipelines) in
      let (to_p, from_p) = pipeline_errors-eq-nil c name p in
      let (to_ps, from_ps) = all_pipeline_errors-eq-nil c pipelines in
      (λ h. (to_p (to h).0, to_ps (to h).1), λ h. from (from_p h.0, from_ps h.1))

  service_errors-eq-nil :
      (c : OTelConfig) (s : Option Service)
      → (service_errors regexp yaml c s ≡ ok []) ↔ ServiceResolves c s
  unfolding service_errors
  service_errors-eq-nil c none = (λ _. tt, λ _. refl)
  service_errors-eq-nil c (some s) = elim (Option-cases s.pipelines) [
    | inl e ↦ rw (e, or_empty) (λ _. tt, λ _. refl)
    | inr (ps, e) ↦ rw (e, or_empty) (all_pipeline_errors-eq-nil c ps)
  ]

-- The validator reports nothing exactly when every pipeline is there and names defined components
-- only, whatever the positions of the errors would be.
pub validate_pipelines-eq-nil :
    (regexp : Text → Option (Text → Bool)) (yaml_content : Text) (parsed : ParsedData)
    → (validate_pipelines regexp yaml_content parsed ≡ ok []) ↔ Resolves parsed
unfolding validate_pipelines
validate_pipelines-eq-nil regexp yaml no_object = (λ _. tt, λ _. refl)
validate_pipelines-eq-nil regexp yaml (config c) = service_errors-eq-nil regexp yaml c c.service
