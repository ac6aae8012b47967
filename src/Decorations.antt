-- ===== src/Decorations.antt =====
-- ui/src/components/configs/ConfigYamlEditorWithMetrics.tsx: the numbers that the editor writes
-- behind the lines of a configuration. Of the text of a decoration only the two numbers that it is
-- written from are modelled, its throughput and its errors; their fractions are left out.
pub mod Sums
mod Tests
use otel_hive.Base.{
  ℕ, zero, suc, ◌+◌, Bool, true, false, ◌&&◌, Option, none, some, List, [], ◌∷◌, keep,
  if◌then◌else◌,
}
use otel_hive.Text.{Text, text, text_eq}
use otel_hive.Components.{
  Section, receiver, processor, exporter, YamlComponent, parse_yaml_components,
}
use otel_hive.Metrics.{same_section}

pub record ComponentMetrics : Type 0 where
  pub component_type : Text
  pub component_name : Text
  pub throughput : ℕ
  pub errors : ℕ
  pub received : Option ℕ
  pub accepted : Option ℕ
  pub refused : Option ℕ
  pub dropped : Option ℕ
  pub sent : Option ℕ
  pub send_failed : Option ℕ

pub record Aggregated : Type 0 where
  pub throughput : ℕ
  pub errors : ℕ
  pub received : ℕ
  pub accepted : ℕ
  pub refused : ℕ
  pub dropped : ℕ
  pub sent : ℕ
  pub send_failed : ℕ

unfoldable pub map_component_type : Text → Section
unfolding text_eq
map_component_type api_type =
    if text_eq api_type (text "receiver")
    then receiver
    else if text_eq api_type (text "processor")
    then processor
    else if text_eq api_type (text "exporter")
    then exporter
    else receiver

-- `a || 0`
abbrev pub or_zero : Option ℕ → ℕ
or_zero none = 0
or_zero (some n) = n

abbrev pub add_metrics : Aggregated → ComponentMetrics → Aggregated
add_metrics a m = record {
  throughput = a.throughput + m.throughput;
  errors = a.errors + m.errors;
  received = a.received + or_zero m.received;
  accepted = a.accepted + or_zero m.accepted;
  refused = a.refused + or_zero m.refused;
  dropped = a.dropped + or_zero m.dropped;
  sent = a.sent + or_zero m.sent;
  send_failed = a.send_failed + or_zero m.send_failed;
}

unfoldable pub add_all : Aggregated → List ComponentMetrics → Aggregated
add_all a [] = a
add_all a (m ∷ ms) = add_all (add_metrics a m) ms

abbrev pub nothing : Aggregated
nothing = record {
  throughput = 0;
  errors = 0;
  received = 0;
  accepted = 0;
  refused = 0;
  dropped = 0;
  sent = 0;
  send_failed = 0;
}

unfoldable pub aggregate_metrics : List ComponentMetrics → Aggregated
unfolding add_all
aggregate_metrics metrics = add_all nothing metrics

pub record Decoration : Type 0 where
  pub line_number : ℕ
  pub throughput : ℕ
  pub errors : ℕ

unfoldable pub is_metrics_of : YamlComponent → ComponentMetrics → Bool
unfolding map_component_type text_eq
is_metrics_of component m =
    text_eq m.component_name component.name
    && same_section (map_component_type m.component_type) component.type

abbrev pub decoration : ℕ → Aggregated → Decoration
decoration line_number a = record {
  line_number = line_number;
  throughput = a.throughput;
  errors = a.errors;
}

-- A component with no metrics gets none.
abbrev pub decorate : YamlComponent → List ComponentMetrics → List Decoration → List Decoration
decorate component [] rest = rest
decorate component (m ∷ ms) rest =
    decoration component.line_number (aggregate_metrics (m ∷ ms)) ∷ rest

unfoldable pub new_decorations : List ComponentMetrics → List YamlComponent → List Decoration
unfolding is_metrics_of aggregate_metrics
new_decorations metrics [] = []
new_decorations metrics (c ∷ cs) =
    decorate c (keep (is_metrics_of c) metrics) (new_decorations metrics cs)

-- `parsedComponents` and the decorations that the editor shows; `has_model` says that the editor and
-- its model are there.
pub record Editor : Type 0 where
  pub has_model : Bool
  pub parsed_components : List YamlComponent
  pub shown : List Decoration

-- The effect on the text, which an empty one leaves out.
unfoldable pub value_changed : Text → Editor → Editor
unfolding parse_yaml_components
value_changed [] s = s
value_changed (c ∷ value) s = record s { parsed_components = parse_yaml_components (c ∷ value) }

-- The effect on the metrics and the components: the old decorations are cleared where it goes on.
unfoldable pub update_decorations : Option (List ComponentMetrics) → Editor → Editor
unfolding new_decorations
update_decorations none s = s
update_decorations (some []) s = s
update_decorations (some (m ∷ ms)) s =
    if s.has_model then (record s { shown = new_decorations (m ∷ ms) s.parsed_components }) else s

-- Both effects after a change of the text.
unfoldable pub edited : Text → Option (List ComponentMetrics) → Editor → Editor
unfolding value_changed update_decorations
edited value metrics s = update_decorations metrics (value_changed value s)
