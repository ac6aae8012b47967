-- ===== src/Metrics/Series.antt =====
-- AgentMetrics.tsx: the points that a chart shows, and the value that counts for a metric.
use otel_hive.Base.{
  ℕ, suc, ◌+◌, ◌-◌, ◌≤◌, ◌≡◌, refl, sym, ap, subst, ◌∙◌, true, List, [], ◌∷◌, ◌++◌, map, length,
  leb, take, drop, take-append-drop, length-drop, length-map, In, All, arith, sort, IsSorted,
  IsSorted-append, sort-IsSorted, sort-Perm, sort-head, length-sort, up-IsOrder, down-IsOrder,
  leb→le, leb_refl,
}
use mathlib.Core.List.{Perm}
use otel_hive.Text.{Text}
use otel_hive.Metrics.{MetricData}
use otel_hive.Metrics.Card.{
  TimeSeriesPoint, slice_last, point, by_timestamp, points, later_first, value_of_first, latest_of,
}

module _ (clock : Text → Text) (time_of : Text → ℕ) where
  -- `shown` are the last points of the metrics: the others are older than each of them.
  pub record IsLatest (metrics : List MetricData) (shown : List TimeSeriesPoint) : Type 0 where
    pub earlier : List TimeSeriesPoint
    pub all : Perm (earlier ++ shown) (map (point clock time_of) metrics)
    pub ascending : IsSorted (by_timestamp clock time_of) shown
    pub older :
        All
          (λ (e : TimeSeriesPoint).
            All (λ (p : TimeSeriesPoint). leb e.timestamp p.timestamp ≡ true) shown)
          earlier
    pub count : length shown + (length metrics - 20) ≡ length metrics

  slice_last-IsLatest :
      (metrics : List MetricData) (sorted : List TimeSeriesPoint)
      → Perm sorted (map (point clock time_of) metrics)
      → IsSorted (by_timestamp clock time_of) sorted
      → length sorted ≡ length metrics
      → IsLatest metrics (slice_last 20 sorted)
  unfolding slice_last
  slice_last-IsLatest metrics sorted perm ascending count =
      let n = length sorted - 20 in
      let parts = IsSorted-append (by_timestamp clock time_of) (take n sorted) (drop n sorted) (
        subst (IsSorted (by_timestamp clock time_of)) (sym (take-append-drop n sorted))
          ascending) in
      record {
        earlier = take n sorted;
        all =
            subst (λ l. Perm l (map (point clock time_of) metrics))
              (sym (take-append-drop n sorted)) perm;
        ascending = parts.1;
        older = parts.0;
        count = omega (arith, count, length-drop n sorted);
      }

  -- A chart shows the last 20 points of the metrics of its name, or all of them where there are
  -- fewer, in ascending order of time; the points left out are not younger than those shown.
  pub points-IsLatest :
      (metrics : List MetricData) → IsLatest metrics (points clock time_of metrics)
  unfolding points
  points-IsLatest metrics =
      slice_last-IsLatest metrics _ (sort-Perm (by_timestamp clock time_of) _)
        (sort-IsSorted (by_timestamp clock time_of)
          (up-IsOrder (λ (p : TimeSeriesPoint). p.timestamp)) (map (point clock time_of) metrics))
        (length-sort (by_timestamp clock time_of) _ ∙ length-map (point clock time_of) metrics)

never : {n : ℕ} → ¬ (suc n ≡ 0)
never h = omega arith

-- A metric of the list that is not older than any other.
pub record IsNewest (time_of : Text → ℕ) (metrics : List MetricData) (m : MetricData) : Type 0 where
  pub member : In m metrics
  pub newest :
      (other : MetricData) → In other metrics → time_of other.timestamp ≤ time_of m.timestamp

-- What counts for a metric name that has metrics is the value of one that is not older than any
-- other of that name.
pub latest_of-IsNewest :
    (time_of : Text → ℕ) (first : MetricData) (others : List MetricData)
    → (m : MetricData) × IsNewest time_of (first ∷ others) m
      × (latest_of time_of (first ∷ others) ≡ m.value)
unfolding latest_of
latest_of-IsNewest time_of first others = go (sort (later_first time_of) (first ∷ others)) refl
  where
    go :
        (sorted : List MetricData)
        → sort (later_first time_of) (first ∷ others) ≡ sorted
        → (m : MetricData) × IsNewest time_of (first ∷ others) m
          × (value_of_first (sort (later_first time_of) (first ∷ others)) ≡ m.value)
    go [] e =
        absurd (never (sym (length-sort (later_first time_of) (first ∷ others)) ∙ ap length e))
    go (m ∷ rest) e =
        let (member, top) =
          sort-head (later_first time_of) (down-IsOrder (λ (x : MetricData). time_of x.timestamp))
            (λ a. leb_refl _) _ e in
        (
          m,
          record { member = member; newest = λ other i. leb→le _ _ (top other i) },
          ap value_of_first e,
        )
