-- ===== src/Metrics/Overview.antt =====
-- AgentMetrics.tsx, `healthMetrics`: the numbers above the tabs. The texts that they are written as
-- are left out, with the fractions that they need.
use otel_hive.Base.{
  ℕ, ◌+◌, ◌-◌, ◌/◌, Bool, Option, none, some, List, [], ◌∷◌, ◌++◌, length, leb, ltb, if◌then◌else◌,
  sort,
}
use otel_hive.Text.{Text, text}
use otel_hive.Grouping.{get}
use otel_hive.Metrics.{MetricData, ByName, metrics_by_name}

-- The CPU usage stands for the percentage of the difference of two readings, `first` and `last`, in
-- the milliseconds between them; 0 % where there are none.
pub data HealthMetric : Type 0 where
  cpu_usage : (first last milliseconds : ℕ) → HealthMetric
  memory_usage : (mega_bytes : ℕ) → HealthMetric
  data_received data_sent : (total : ℕ) → HealthMetric

abbrev pub first_of : List MetricData → Option MetricData
first_of [] = none
first_of (m ∷ ms) = some m

abbrev pub last_of : List MetricData → Option MetricData
last_of [] = none
last_of (m ∷ []) = some m
last_of (m ∷ n ∷ ms) = last_of (n ∷ ms)

-- What a metric that may be absent adds to a total.
abbrev pub value_or_zero : Option MetricData → ℕ
value_or_zero none = 0
value_or_zero (some m) = m.value

-- `(bytes / (1024 * 1024)).toFixed(0)`, which rounds to the nearest.
abbrev pub mega_bytes_of : ℕ → ℕ
mega_bytes_of bytes = (bytes + 524288) / 1048576

abbrev pub memory_shown : Option MetricData → List HealthMetric
memory_shown none = []
memory_shown (some latest) = memory_usage (mega_bytes_of latest.value) ∷ []

abbrev pub earlier_first : (Text → ℕ) → MetricData → MetricData → Bool
earlier_first time_of a b = leb (time_of a.timestamp) (time_of b.timestamp)

unfoldable pub memory : ByName → List HealthMetric
unfolding get
memory by_name = memory_shown (last_of (get (text "otelcol_process_memory_rss") by_name))

-- `metricsByName.get(name)?.[0]`
unfoldable pub first_value : Text → ByName → ℕ
unfolding get
first_value name by_name = value_or_zero (first_of (get name by_name))

unfoldable pub received : ByName → List HealthMetric
unfolding first_value
received by_name =
    let total =
      first_value (text "otelcol_receiver_accepted_spans") by_name
      + first_value (text "otelcol_receiver_accepted_log_records") by_name in
    if ltb 0 total then data_received total ∷ [] else []

unfoldable pub sent : ByName → List HealthMetric
unfolding first_value
sent by_name =
    let total =
      first_value (text "otelcol_exporter_sent_spans") by_name
      + first_value (text "otelcol_exporter_sent_log_records") by_name in
    if ltb 0 total then data_sent total ∷ [] else []

module _ (time_of : Text → ℕ) where
  abbrev pub cpu_of : Option MetricData → Option MetricData → List HealthMetric
  cpu_of (some first) (some last) =
      cpu_usage first.value last.value (time_of last.timestamp - time_of first.timestamp) ∷ []
  cpu_of _ _ = []

  unfoldable pub cpu : ByName → List HealthMetric
  unfolding sort get
  cpu by_name =
      let readings = get (text "otelcol_process_cpu_seconds") by_name in
      let sorted = sort (earlier_first time_of) readings in
      if leb 2 (length readings) then cpu_of (first_of sorted) (last_of sorted) else []

  unfoldable pub health_metrics : Option (List MetricData) → List HealthMetric
  unfolding metrics_by_name cpu memory received sent
  health_metrics none = []
  health_metrics (some metrics_data) =
      let by_name = metrics_by_name metrics_data in
      cpu by_name ++ memory by_name ++ received by_name ++ sent by_name
