-- ===== src/Charts.antt =====
-- ui/src/components/lawrence-ql/QueryResultsChart.tsx: the points and the series of the chart of a
-- query's results. `clock` is the time of day that the browser writes for a stamp, and `parse_float`
-- is `parseFloat(String(v)) || 0`.
pub mod Values
mod Tests
use otel_hive.Base.{
  ℕ, Bool, ◌&&◌, Option, none, some, List, [], ◌∷◌, ◌++◌, map, length, ltb, if◌then◌else◌,
}
use otel_hive.Text.{Text, text, text_eq}

pub data Value (V : Type 0) : Type 0 where
  number : ℕ → Value V
  other : V → Value V

pub record QueryResult (V : Type 0) : Type 0 where
  pub timestamp : Text
  pub value : Value V
  pub labels : Option (List (Text × Text))

-- An object `{ timestamp, [series]: value, … }`, its series in the order in which they came.
pub record DataPoint : Type 0 where
  pub timestamp : Text
  pub series : List (Text × ℕ)

-- `entries.map(([k, v]) => `${k}=${v}`).join(",")`
abbrev pub join_labels : List (Text × Text) → Text
join_labels [] = []
join_labels ((k, v) ∷ []) = k ++ (b'=' ∷ v)
join_labels ((k, v) ∷ l ∷ ls) = (k ++ (b'=' ∷ v)) ++ (b',' ∷ join_labels (l ∷ ls))

-- `s || "value"`
abbrev pub or_value : Text → Text
or_value [] = text "value"
or_value (c ∷ s) = c ∷ s

abbrev pub series_key : Option (List (Text × Text)) → Text
series_key none = text "value"
series_key (some labels) = or_value (join_labels labels)

-- `dataPoint[seriesKey] = numValue`
unfoldable pub set_series : Text → ℕ → List (Text × ℕ) → List (Text × ℕ)
unfolding text_eq
set_series k v [] = (k, v) ∷ []
set_series k v ((j, w) ∷ series) =
    if text_eq j k then (j, v) ∷ series else (j, w) ∷ set_series k v series

-- One result: its point is there or is added, and its series is set.
unfoldable pub add_result : Text → Text → ℕ → List DataPoint → List DataPoint
unfolding set_series
add_result t k v [] = (record { timestamp = t; series = (k, v) ∷ [] }) ∷ []
add_result t k v (p ∷ ps) =
    if text_eq p.timestamp t
    then (record p { series = set_series k v p.series }) ∷ ps
    else p ∷ add_result t k v ps

module _ {V : Type 0} (parse_float : V → ℕ) (clock : Text → Text) where
  abbrev pub num_value : Value V → ℕ
  num_value (number n) = n
  num_value (other v) = parse_float v

  unfoldable pub chart_from : List (QueryResult V) → List DataPoint → List DataPoint
  unfolding add_result
  chart_from [] ps = ps
  chart_from (r ∷ rs) ps =
      chart_from rs (add_result (clock r.timestamp) (series_key r.labels) (num_value r.value) ps)

  unfoldable pub chart_data : List (QueryResult V) → List DataPoint
  unfolding chart_from
  chart_data results = chart_from results []

pub data ChartType : Type 0 where
  line bar area auto : ChartType

abbrev pub resolved_chart_type : ChartType → List DataPoint → ChartType
resolved_chart_type auto chart_data = if ltb 1 (length chart_data) then line else bar
resolved_chart_type chart_type chart_data = chart_type

-- The keys of the first point; no series is called "timestamp", since a key is "value" or holds `=`.
abbrev pub series_keys : List DataPoint → List Text
series_keys [] = []
series_keys (p ∷ ps) = map (λ (s : Text × ℕ). s.0) p.series
