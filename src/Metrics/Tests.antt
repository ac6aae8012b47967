-- ===== src/Metrics/Tests.antt =====
-- A few metrics of an agent, and instances of the theorems at them. The time of a stamp is its
-- length here.
use otel_hive.Base.{ℕ, ◌≤◌, ◌≡◌, refl, some, List, [], ◌∷◌, map, length, In, here, arith, IsSorted}
use otel_hive.Text.{Text, text, text_eq, index_of, starts_with, split}
use otel_hive.Components.{receiver}
use otel_hive.Metrics.{MetricData, ComponentMetrics, classify, grouped_metrics}
use otel_hive.Metrics.Overview.{earlier_first}
use otel_hive.Metrics.Grouped.{Refines, grouped_metrics-Refines}
use otel_hive.Metrics.Samples.{samples}

abbrev at : Text → ℕ → Text → MetricData
at name value timestamp = record {
  metric_name = name;
  value = value;
  timestamp = timestamp;
  metric_attributes = some ((text "receiver", text "otlp:grpc") ∷ []);
}

abbrev spans_name : Text
spans_name = text "otelcol_receiver_accepted_spans"

abbrev mem_name : Text
mem_name = text "otelcol_process_memory_rss"

abbrev cpu_name : Text
cpu_name = text "otelcol_process_cpu_seconds"

abbrev early : MetricData
early = at spans_name 5 (text "1")

abbrev late : MetricData
late = at spans_name 9 (text "12")

abbrev mem : MetricData
mem = at mem_name 3145728 (text "123")

abbrev cpu_early : MetricData
cpu_early = at cpu_name 2 (text "1")

abbrev cpu_late : MetricData
cpu_late = at cpu_name 4 (text "123")

abbrev data_in_order : List MetricData
data_in_order = early ∷ late ∷ mem ∷ []

abbrev readings : List MetricData
readings = cpu_late ∷ cpu_early ∷ []

-- A name with a colon loses what follows it.
cut_name :
    map (λ (c : ComponentMetrics). c.name) (grouped_metrics (some data_in_order)).receivers
    ≡ text "otlp" ∷ []
unfolding grouped_metrics classify text_eq index_of starts_with split
cut_name = refl

early_sample : classify early ≡ (some receiver, text "otlp:grpc")
unfolding classify index_of starts_with text_eq
early_sample = refl

grouped_metrics-Refines_example : Refines data_in_order (grouped_metrics (some data_in_order))
grouped_metrics-Refines_example = grouped_metrics-Refines data_in_order

two_readings : 2 ≤ length (samples (text "otelcol_process_cpu_seconds") readings)
unfolding text_eq
two_readings = omega arith

in_order : IsSorted (earlier_first length) data_in_order
in_order = ((refl, (refl, tt)), ((refl, tt), (tt, tt)))

mem_sampled : In mem (samples (text "otelcol_process_memory_rss") data_in_order)
unfolding text_eq
mem_sampled = here

spans_sampled : In early (samples (text "otelcol_receiver_accepted_spans") data_in_order)
unfolding text_eq
spans_sampled = here
