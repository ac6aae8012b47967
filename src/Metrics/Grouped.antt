-- ===== src/Metrics/Grouped.antt =====
-- AgentMetrics.tsx: which metrics each component is shown with.
use otel_hive.Base.{
  ℕ, ◌≡◌, refl, sym, ap, subst, ◌∙◌, true, Option, none, some, List, [], ◌∷◌, keep, keep_ext, In,
  there, In-cons, In-head, In-keep, All, All-In, inl, inr, Bool-cases,
}
use otel_hive.Text.{Text}
use otel_hive.Text.Laws.{text_eq_refl}
use otel_hive.Grouping.{Group, get, has_key}
use otel_hive.Grouping.Laws.{IsEntry, group-IsEntry, get-group, get-In}
use otel_hive.Components.{Section, receiver, processor, exporter}
use otel_hive.Metrics.{
  MetricData, ComponentMetrics, GroupedMetrics, grouped_metrics, classify, component_key,
  component_map, component_of, components_of, same_section, or_nothing, name_of_key,
}
use otel_hive.Metrics.Keys.{
  is_of, key_of, key_of-section, has_key-is_of, same_section→eq, same_section_refl, up_to_colon,
  name_of_key-key_of,
}

-- The component holds all the metrics of a type and a name, in their order, and no others; it is
-- shown by the name up to a colon.
pub record IsComponent (section : Section) (metrics_data : List MetricData) (c : ComponentMetrics)
    : Type 0 where
  pub name : Text
  pub shown : c.name ≡ up_to_colon name
  pub exact : c.metrics ≡ keep (λ m. is_of section name (classify m)) metrics_data
  pub some_metric : (m : MetricData) × In m c.metrics

-- The key is that of a component of the type.
abbrev IsKey : Text → Section → Type 0
IsKey key section = (name : Text) × (key ≡ key_of section name)

component_key-IsKey :
    (classified : Option Section × Text) (k : Text) (s : Section)
    → component_key classified ≡ some (k, s)
    → IsKey k s
component_key-IsKey (none, name) k s h = cc
component_key-IsKey (some t, []) k s h = cc
component_key-IsKey (some t, c ∷ name) k s h = (c ∷ name, cc)

component_of-IsComponent :
    (metrics_data : List MetricData) (g : Group Section MetricData)
    → IsEntry IsKey (λ m. component_key (classify m)) metrics_data g
    → IsComponent g.tag metrics_data (component_of g)
component_of-IsComponent metrics_data g entry =
    let (name, key) = entry.tagged in
    record {
      name = name;
      shown = ap or_nothing (ap name_of_key key ∙ name_of_key-key_of g.tag name);
      exact =
          subst (λ k. g.items ≡ keep (λ m. has_key k (component_key (classify m))) metrics_data) key
            entry.items
          ∙ keep_ext _ _ (λ m. has_key-is_of g.tag name (classify m)) metrics_data;
      some_metric = entry.filled;
    }

components_of-IsComponent :
    (section : Section) (metrics_data : List MetricData) (gs : List (Group Section MetricData))
    → All (IsEntry IsKey (λ m. component_key (classify m)) metrics_data) gs
    → All (IsComponent section metrics_data) (components_of section gs)
unfolding components_of
components_of-IsComponent section metrics_data [] h = tt
components_of-IsComponent section metrics_data (g ∷ gs) h =
    elim (Bool-cases (same_section g.tag section)) [
      | inl e ↦ rw e (
        subst (λ s. IsComponent s metrics_data (component_of g)) (same_section→eq g.tag section e)
            (component_of-IsComponent metrics_data g h.0),
        components_of-IsComponent section metrics_data gs h.1,
      )
      | inr e ↦ rw e (components_of-IsComponent section metrics_data gs h.1)
    ]

component_map-IsEntry :
    (metrics_data : List MetricData)
    → All
        (IsEntry IsKey (λ m. component_key (classify m)) metrics_data)
        (component_map metrics_data)
unfolding component_map
component_map-IsEntry metrics_data =
    group-IsEntry IsKey (λ m. component_key (classify m)) (λ m. component_key-IsKey (classify m))
      metrics_data

components_of-In :
    (section : Section) (g : Group Section MetricData) (gs : List (Group Section MetricData))
    → In g gs
    → same_section g.tag section ≡ true
    → In (component_of g) (components_of section gs)
unfolding components_of
components_of-In section g [] i e = elim i [ ]
components_of-In section g (h ∷ gs) i e = elim (In-cons i) [
  | inl same ↦
      rw (subst (λ x. same_section x.tag section ≡ true) same e) (In-head (ap component_of same))
  | inr j ↦ elim (Bool-cases (same_section h.tag section)) [
    | inl f ↦ rw f (there (components_of-In section g gs j e))
    | inr f ↦ rw f (components_of-In section g gs j e)
  ]
]

-- The tab of a type.
abbrev pub tab : Section → GroupedMetrics → List ComponentMetrics
tab receiver g = g.receivers
tab processor g = g.processors
tab exporter g = g.exporters

tab-components_of :
    (section : Section) (metrics_data : List MetricData)
    → tab section (grouped_metrics (some metrics_data))
      ≡ components_of section (component_map metrics_data)
unfolding grouped_metrics
tab-components_of receiver metrics_data = refl
tab-components_of processor metrics_data = refl
tab-components_of exporter metrics_data = refl

is_of_refl :
    (section : Section) (c : ℕ) (name : Text)
    → is_of section (c ∷ name) (some section, c ∷ name) ≡ true
is_of_refl section c name = rw (same_section_refl section, text_eq_refl (c ∷ name)) refl

component_map-get :
    (metrics_data : List MetricData) (m : MetricData) (section : Section) (name : Text)
    → In m metrics_data
    → is_of section name (classify m) ≡ true
    → In m (get (key_of section name) (component_map metrics_data))
unfolding component_map
component_map-get metrics_data m section name i h =
    subst (In m)
      (sym (get-group (λ x. component_key (classify x)) (key_of section name) metrics_data))
      ((In-keep _ m metrics_data).1 (i, has_key-is_of section name (classify m) ∙ h))

metric-shown :
    (metrics_data : List MetricData) (m : MetricData) (section : Section) (c : ℕ) (name : Text)
    → In m metrics_data
    → classify m ≡ (some section, c ∷ name)
    → (component : ComponentMetrics) × In component
        (tab section (grouped_metrics (some metrics_data)))
      × In m component.metrics
metric-shown metrics_data m section c name i h =
    let belongs : is_of section (c ∷ name) (classify m) ≡ true =
      ap (is_of section (c ∷ name)) h ∙ is_of_refl section c name in
    let (g, at, key, j) =
      get-In (key_of section (c ∷ name)) m (component_map metrics_data)
        (component_map-get metrics_data m section (c ∷ name) i belongs) in
    let (other, of) = (All-In _ (component_map-IsEntry metrics_data) at).tagged in
    (
      component_of g,
      subst (In (component_of g)) (sym (tab-components_of section metrics_data)) (
          components_of-In section g (component_map metrics_data) at
            (key_of-section g.tag section other (c ∷ name) (sym of ∙ key))),
      j,
    )

-- The tabs show the components of the data: those that are shown are components, and every metric is
-- with one.
pub record Refines (metrics_data : List MetricData) (g : GroupedMetrics) : Type 0 where
  pub sound : (section : Section) → All (IsComponent section metrics_data) (tab section g)
  pub complete :
      (m : MetricData) (section : Section) (c : ℕ) (name : Text)
      → In m metrics_data
      → classify m ≡ (some section, c ∷ name)
      → (component : ComponentMetrics) × In component (tab section g) × In m component.metrics

-- Each component of a tab is shown with all the metrics that are classified under its type and its
-- name, in the order of the data, and with no others; it has at least one, and it is shown by its
-- name up to the first colon. Each metric that is classified under a type and a name that is not
-- empty is with a component of the tab of that type.
pub grouped_metrics-Refines :
    (metrics_data : List MetricData) → Refines metrics_data (grouped_metrics (some metrics_data))
grouped_metrics-Refines metrics_data = record {
  sound = λ section.
      subst (All (IsComponent section metrics_data)) (sym (tab-components_of section metrics_data))
        (components_of-IsComponent section metrics_data _ (component_map-IsEntry metrics_data));
  complete = metric-shown metrics_data;
}
