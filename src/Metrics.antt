-- ===== src/Metrics.antt =====
-- ui/src/components/agent-details/AgentMetrics.tsx: the metrics of an agent, by component and by
-- name. `MetricData` is that of ui/src/api/telemetry.ts.
mod Keys
pub mod Card
pub mod Overview
pub mod Grouped
pub mod Series
pub mod Samples
mod Tests
use otel_hive.Base.{
  ℕ, zero, suc, ◌+◌, ◌-◌, ◌*◌, ◌/◌, Bool, true, false, ◌||◌, Option, none, some, List, [], ◌∷◌,
  ◌++◌, map, length, leb, ltb, if◌then◌else◌, get_elem?, drop, sort, insert,
}
use otel_hive.Text.{Text, text, text_eq, truthy, includes, index_of, starts_with, split}
use otel_hive.Grouping.{Group, group, get, push, group_into}
use otel_hive.Components.{Section, receiver, processor, exporter}

-- The attributes that are read are texts.
pub record MetricData : Type 0 where
  pub metric_name : Text
  pub value : ℕ
  pub timestamp : Text
  pub metric_attributes : Option (List (Text × Text))

pub record ComponentMetrics : Type 0 where
  pub name : Text
  pub metrics : List MetricData

-- A property of an object that may be absent.
abbrev pub property : Text → List (Text × Text) → Option Text
property k [] = none
property k ((j, v) ∷ attributes) = if text_eq j k then some v else property k attributes

-- `metric_attributes?.[k] || fallback`
abbrev pub attribute_or : Text → Text → Option (List (Text × Text)) → Text
attribute_or k fallback none = fallback
attribute_or k fallback (some attributes) = elim (truthy (property k attributes)) [
  | none ↦ fallback
  | some v ↦ v
]

-- `componentType` and `componentName`
unfoldable pub classify : MetricData → Option Section × Text
unfolding index_of starts_with
classify metric =
    if includes metric.metric_name (text "receiver")
    then (
      some receiver,
      attribute_or (text "receiver") (text "unknown_receiver") metric.metric_attributes,
    )
    else if includes metric.metric_name (text "processor")
    then (
      some processor,
      attribute_or (text "processor") (text "unknown_processor") metric.metric_attributes,
    )
    else if includes metric.metric_name (text "exporter")
    then (
      some exporter,
      attribute_or (text "exporter") (text "unknown_exporter") metric.metric_attributes,
    )
    else (none, [])

abbrev pub section_name : Section → Text
section_name receiver = text "receiver"
section_name processor = text "processor"
section_name exporter = text "exporter"

-- The key and the type that a metric is filed under, where both type and name are there.
abbrev pub component_key : Option Section × Text → Option (Text × Section)
component_key (none, name) = none
component_key (some section, []) = none
component_key (some section, c ∷ name) = some (section_name section ++ (b':' ∷ c ∷ name), section)

-- `componentMap`
unfoldable pub component_map : List MetricData → List (Group Section MetricData)
unfolding group classify
component_map metrics_data = group (λ metric. component_key (classify metric)) metrics_data

-- `key.split(":")[1]`
abbrev pub name_of_key : Text → Option Text
name_of_key key = get_elem? (split b':' key) 1

abbrev pub same_section : Section → Section → Bool
same_section receiver receiver = true
same_section processor processor = true
same_section exporter exporter = true
same_section _ _ = false

-- `undefined` is shown as nothing.
abbrev pub or_nothing : Option Text → Text
or_nothing none = []
or_nothing (some name) = name

abbrev pub component_of : Group Section MetricData → ComponentMetrics
component_of g = record { name = or_nothing (name_of_key g.key); metrics = g.items }

-- The array that the components of a type are pushed to.
unfoldable pub components_of : Section → List (Group Section MetricData) → List ComponentMetrics
unfolding split
components_of section [] = []
components_of section (g ∷ gs) =
    let rest = components_of section gs in
    if same_section g.tag section then component_of g ∷ rest else rest

pub record GroupedMetrics : Type 0 where
  pub receivers : List ComponentMetrics
  pub processors : List ComponentMetrics
  pub exporters : List ComponentMetrics

unfoldable pub grouped_metrics : Option (List MetricData) → GroupedMetrics
unfolding component_map components_of
grouped_metrics none = record { receivers = []; processors = []; exporters = [] }
grouped_metrics (some metrics_data) = record {
  receivers = components_of receiver (component_map metrics_data);
  processors = components_of processor (component_map metrics_data);
  exporters = components_of exporter (component_map metrics_data);
}

abbrev pub ByName : Type 0
ByName = List (Group {0, 0} Unit MetricData)

-- `metricsByName`, which both the overview and the card of a component build.
unfoldable pub metrics_by_name : List MetricData → ByName
unfolding group
metrics_by_name metrics = group (λ (m : MetricData). some (m.metric_name, tt)) metrics
