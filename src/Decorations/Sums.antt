-- ===== src/Decorations/Sums.antt =====
-- ConfigYamlEditorWithMetrics.tsx: what stands behind which line.
use otel_hive.Base.{
  ℕ, ◌+◌, ◌≡◌, ◌≢◌, ◌⊎◌, inl, inr, Bool-cases, In, here, In-keep, true-ne-false, subst, refl, sym,
  ap, ◌∙◌, true, false, some, List, [], ◌∷◌, keep, All, arith,
}
use otel_hive.Text.{Text, text, text_eq, split}
use otel_hive.Text.Laws.{text_eq→eq, ne-of_text_eq}
use otel_hive.Metrics.{same_section}
use otel_hive.Components.{
  Section, receiver, processor, exporter, YamlComponent, parse_yaml_components,
}
use otel_hive.Components.Headers.{FoundIn}
use otel_hive.Components.Lines.{parse_yaml_components-FoundIn}
use otel_hive.Decorations.{
  ComponentMetrics, Aggregated, add_metrics, add_all, nothing, aggregate_metrics, Decoration,
  map_component_type, is_metrics_of, decorate, new_decorations, Editor, value_changed,
  update_decorations, edited,
}

-- The sum of a number over the metrics.
abbrev pub sum_of : (ComponentMetrics → ℕ) → List ComponentMetrics → ℕ
sum_of f [] = 0
sum_of f (m ∷ ms) = f m + sum_of f ms

abbrev throughput_of : ComponentMetrics → ℕ
throughput_of m = m.throughput

abbrev errors_of : ComponentMetrics → ℕ
errors_of m = m.errors

add_all-sums :
    (a : Aggregated) (ms : List ComponentMetrics)
    → ((add_all a ms).throughput ≡ a.throughput + sum_of throughput_of ms)
      × ((add_all a ms).errors ≡ a.errors + sum_of errors_of ms)
unfolding add_all
add_all-sums a [] = (omega arith, omega arith)
add_all-sums a (m ∷ ms) =
    let (t, e) = add_all-sums (add_metrics a m) ms in (omega (arith, t), omega (arith, e))

aggregate_metrics-sums :
    (ms : List ComponentMetrics)
    → ((aggregate_metrics ms).throughput ≡ sum_of throughput_of ms)
      × ((aggregate_metrics ms).errors ≡ sum_of errors_of ms)
unfolding aggregate_metrics
aggregate_metrics-sums ms =
    let (t, e) = add_all-sums nothing ms in (omega (arith, t), omega (arith, e))

-- What the metrics call the components of a section; a word that is not known counts as a receiver.
abbrev pub IsKind : Text → Section → Type 0
IsKind word receiver = (word ≢ text "processor") × (word ≢ text "exporter")
IsKind word processor = word ≡ text "processor"
IsKind word exporter = word ≡ text "exporter"

-- The metrics are of the component: they have its name and its kind.
abbrev pub IsOf : YamlComponent → ComponentMetrics → Type 0
IsOf c m = (m.component_name ≡ c.name) × IsKind m.component_type c.type

-- The sum of a number over the elements with a property.
pub data SumOf {A : Type 0} (P : A → Type 0) (f : A → ℕ) : List A → ℕ → Type 0 where
  none_left : SumOf P f [] 0
  has : {x : A} {xs : List A} {n : ℕ} → P x → SumOf P f xs n → SumOf P f (x ∷ xs) (f x + n)
  lacks : {x : A} {xs : List A} {n : ℕ} → ¬ P x → SumOf P f xs n → SumOf P f (x ∷ xs) n

-- The three sections against a word, whose section is the first one.
abbrev Decided : Text → Section → Section → Type 0
Decided word own section =
    ((same_section own section ≡ true) × IsKind word section)
    ⊎ ((same_section own section ≡ false) × ¬ IsKind word section)

apart_words : {word : Text} (a b : Text) → word ≡ a → text_eq a b ≡ false → word ≢ b
apart_words a b e h k = ne-of_text_eq a b h (sym e ∙ k)

known_receiver :
    (word : Text)
    → word ≢ text "processor"
    → word ≢ text "exporter"
    → (s : Section) → Decided word receiver s
known_receiver word h k receiver = inl (refl, (h, k))
known_receiver word h k processor = inr (refl, h)
known_receiver word h k exporter = inr (refl, k)

known_processor : (word : Text) → word ≡ text "processor" → (s : Section) → Decided word processor s
unfolding text_eq
known_processor word h receiver = inr (refl, λ k. k.0 h)
known_processor word h processor = inl (refl, h)
known_processor word h exporter = inr (refl, apart_words _ _ h refl)

known_exporter : (word : Text) → word ≡ text "exporter" → (s : Section) → Decided word exporter s
unfolding text_eq
known_exporter word h receiver = inr (refl, λ k. k.1 h)
known_exporter word h processor = inr (refl, apart_words _ _ h refl)
known_exporter word h exporter = inl (refl, h)

kind-cases : (word : Text) (section : Section) → Decided word (map_component_type word) section
unfolding map_component_type text_eq
kind-cases word section = elim (Bool-cases (text_eq word (text "receiver"))) [
  | inl e ↦ rw e (
      let same = text_eq→eq word (text "receiver") e in
      known_receiver word (apart_words _ _ same refl) (apart_words _ _ same refl) section)
  | inr a ↦ elim (Bool-cases (text_eq word (text "processor"))) [
    | inl e ↦ rw (a, e) (known_processor word (text_eq→eq word _ e) section)
    | inr b ↦ elim (Bool-cases (text_eq word (text "exporter"))) [
      | inl e ↦ rw (a, b, e) (known_exporter word (text_eq→eq word _ e) section)
      | inr c ↦
          rw (a, b, c)
            (known_receiver word (ne-of_text_eq word _ b) (ne-of_text_eq word _ c) section)
    ]
  ]
]

own-cases :
    (c : YamlComponent) (m : ComponentMetrics)
    → ((is_metrics_of c m ≡ true) × IsOf c m) ⊎ ((is_metrics_of c m ≡ false) × ¬ IsOf c m)
unfolding is_metrics_of
own-cases c m = elim (Bool-cases (text_eq m.component_name c.name)) [
  | inr e ↦ inr (rw e refl, λ h. ne-of_text_eq _ _ e h.0)
  | inl e ↦ elim (kind-cases m.component_type c.type) [
    | inl (k, is) ↦ inl (rw (e, k) refl, (text_eq→eq _ _ e, is))
    | inr (k, differs) ↦ inr (rw (e, k) refl, λ h. differs h.1)
  ]
]

-- The sums over what a test keeps.
keep-SumOf :
    (c : YamlComponent) (f : ComponentMetrics → ℕ) (ms : List ComponentMetrics)
    → SumOf (IsOf c) f ms (sum_of f (keep (is_metrics_of c) ms))
keep-SumOf c f [] = none_left
keep-SumOf c f (m ∷ ms) = elim (own-cases c m) [
  | inl (e, h) ↦ rw e (has h (keep-SumOf c f ms))
  | inr (e, h) ↦ rw e (lacks h (keep-SumOf c f ms))
]

-- The decoration stands on a line of the text that names a component, and its numbers are the sums
-- over the metrics of that component, of which there is one at least.
pub record IsSum (lines : List Text) (metrics : List ComponentMetrics) (d : Decoration)
    : Type 0 where
  pub component : YamlComponent
  pub found : FoundIn lines component
  pub same_line : d.line_number ≡ component.line_number
  pub throughput : SumOf (IsOf component) throughput_of metrics d.throughput
  pub errors : SumOf (IsOf component) errors_of metrics d.errors
  pub own : ComponentMetrics
  pub listed : In own metrics
  pub is_own : IsOf component own

first_own :
    (c : YamlComponent) (ms own : List ComponentMetrics) (m : ComponentMetrics)
    → keep (is_metrics_of c) ms ≡ m ∷ own
    → In m ms × IsOf c m
first_own c ms own m e =
    let i : In m (keep (is_metrics_of c) ms) = subst (In m) (sym e) here in
    let (j, passes) = (In-keep (is_metrics_of c) m ms).0 i in
    elim (own-cases c m) [
      | inl (k, h) ↦ (j, h)
      | inr (k, h) ↦ absurd (true-ne-false (sym passes ∙ k))
    ]

decorate-IsSum :
    (lines : List Text) (metrics : List ComponentMetrics) (c : YamlComponent)
    (found : FoundIn lines c) (own : List ComponentMetrics) (rest : List Decoration)
    → keep (is_metrics_of c) metrics ≡ own
    → All (IsSum lines metrics) rest
    → All (IsSum lines metrics) (decorate c own rest)
decorate-IsSum lines metrics c found [] rest e h = h
decorate-IsSum lines metrics c found (m ∷ ms) rest e h =
    let (t, k) = aggregate_metrics-sums (m ∷ ms) in
    let (listed, is_own) = first_own c metrics ms m e in
    (
      record {
        component = c;
        found = found;
        same_line = refl;
        throughput =
            subst (SumOf (IsOf c) throughput_of metrics) (ap (sum_of throughput_of) e ∙ sym t)
              (keep-SumOf c throughput_of metrics);
        errors =
            subst (SumOf (IsOf c) errors_of metrics) (ap (sum_of errors_of) e ∙ sym k)
              (keep-SumOf c errors_of metrics);
        own = m;
        listed = listed;
        is_own = is_own;
      },
      h,
    )

new_decorations-IsSum :
    (lines : List Text) (metrics : List ComponentMetrics) (cs : List YamlComponent)
    → All (FoundIn lines) cs
    → All (IsSum lines metrics) (new_decorations metrics cs)
unfolding new_decorations
new_decorations-IsSum lines metrics [] h = tt
new_decorations-IsSum lines metrics (c ∷ cs) h =
    decorate-IsSum lines metrics c h.0 (keep (is_metrics_of c) metrics) _ refl
      (new_decorations-IsSum lines metrics cs h.1)

-- After a change to a text that is not empty, where the editor has its model and there are metrics,
-- every decoration stands on a line of that text that names a component, with the sums of the
-- throughput and of the errors over the metrics that have its name and its kind, of which there is one
-- at least.
pub edited-IsSum :
    (c : ℕ) (value : Text) (m : ComponentMetrics) (ms : List ComponentMetrics) (s : Editor)
    → s.has_model ≡ true
    → All (IsSum (split 10 (c ∷ value)) (m ∷ ms)) (edited (c ∷ value) (some (m ∷ ms)) s).shown
unfolding edited value_changed update_decorations
edited-IsSum c value m ms s h = rw h (
    new_decorations-IsSum (split 10 (c ∷ value)) (m ∷ ms) (parse_yaml_components (c ∷ value))
      (parse_yaml_components-FoundIn (c ∷ value)).0)
