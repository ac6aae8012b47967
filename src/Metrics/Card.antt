-- ===== src/Metrics/Card.antt =====
-- AgentMetrics.tsx, `ComponentMetricCard`: the points of the charts and the counts above them.
-- `time_of` is `new Date(s).getTime()`, `clock` the hour and minute as the browser writes them.
use otel_hive.Base.{
  ℕ, ◌+◌, ◌-◌, Bool, ◌||◌, List, [], ◌∷◌, map, length, leb, if◌then◌else◌, take, drop, sort,
}
use otel_hive.Text.{Text, text, includes, index_of, starts_with}
use otel_hive.Grouping.{Group}
use otel_hive.Metrics.{MetricData, ComponentMetrics, ByName, metrics_by_name}

pub record TimeSeriesPoint : Type 0 where
  pub time : Text
  pub value : ℕ
  pub timestamp : ℕ

pub record Stats : Type 0 where
  pub accepted : ℕ
  pub refused : ℕ
  pub sent : ℕ

-- `.slice(-n)`, for n that is not 0.
unfoldable pub slice_last {ℓ} : {A : Type ℓ} → ℕ → List A → List A
slice_last n xs = drop (length xs - n) xs

abbrev pub is_accepted : Text → Bool
is_accepted name = includes name (text "accepted") || includes name (text "received")

abbrev pub is_refused : Text → Bool
is_refused name = includes name (text "refused")

abbrev pub is_sent : Text → Bool
is_sent name = includes name (text "sent") || includes name (text "exported")

module _ (clock : Text → Text) (time_of : Text → ℕ) where
  abbrev pub point : MetricData → TimeSeriesPoint
  point m = record { time = clock m.timestamp; value = m.value; timestamp = time_of m.timestamp }

  abbrev pub by_timestamp : TimeSeriesPoint → TimeSeriesPoint → Bool
  by_timestamp a b = leb a.timestamp b.timestamp

  -- `points`
  unfoldable pub points : List MetricData → List TimeSeriesPoint
  unfolding sort slice_last
  points metrics = slice_last 20 (sort by_timestamp (map point metrics))

  abbrev pub SeriesData : Type 0
  SeriesData = List (Text × List TimeSeriesPoint)

  unfoldable pub time_series_data : ByName → SeriesData
  unfolding points
  time_series_data metrics_by_name =
      map (λ (g : Group {0, 0} Unit MetricData). (g.key, points g.items)) metrics_by_name

  -- The charts that are drawn.
  unfoldable pub charts : ComponentMetrics → SeriesData
  unfolding metrics_by_name time_series_data
  charts component = take 3 (time_series_data (metrics_by_name component.metrics))

-- The comparator puts the later of two metrics first.
abbrev pub later_first : (Text → ℕ) → MetricData → MetricData → Bool
later_first time_of a b = leb (time_of b.timestamp) (time_of a.timestamp)

-- `sorted[0].value`, where there is a metric.
abbrev pub value_of_first : List MetricData → ℕ
value_of_first [] = 0
value_of_first (m ∷ ms) = m.value

module _ (time_of : Text → ℕ) where
  unfoldable pub latest_of : List MetricData → ℕ
  unfolding sort
  latest_of metrics = value_of_first (sort (later_first time_of) metrics)

  unfoldable pub get_latest_value : (Text → Bool) → ByName → ℕ
  unfolding latest_of
  get_latest_value filter [] = 0
  get_latest_value filter (g ∷ gs) =
      let rest = get_latest_value filter gs in
      if filter g.key then latest_of g.items + rest else rest

  unfoldable pub stats : ComponentMetrics → Stats
  unfolding metrics_by_name get_latest_value index_of starts_with
  stats component = record {
    accepted = get_latest_value is_accepted (metrics_by_name component.metrics);
    refused = get_latest_value is_refused (metrics_by_name component.metrics);
    sent = get_latest_value is_sent (metrics_by_name component.metrics);
  }
