-- ===== src/Metrics/Samples.antt =====
-- AgentMetrics.tsx: which sample of a metric each number of the overview is read from.
use otel_hive.Base.{
  ℕ, ◌-◌, ◌≤◌, ◌≡◌, refl, sym, ap, subst, inl, inr, true, some, List, [], ◌∷◌, length, leb, keep,
  keep-IsSorted, In, In-cons, here, there, All-In, arith, sort, IsSorted, sort-IsSorted, IsOrder,
  sort-In, length-sort, up-IsOrder, leb→le, leb_refl,
}
use otel_hive.Text.{Text, text, text_eq}
use otel_hive.Grouping.{get}
use otel_hive.Grouping.Laws.{get-group}
use otel_hive.Metrics.{MetricData, metrics_by_name}
use otel_hive.Metrics.Overview.{
  HealthMetric, cpu_usage, memory_usage, first_of, last_of, value_or_zero, mega_bytes_of,
  earlier_first, cpu_of, cpu, memory, memory_shown, first_value,
}

-- The samples of a metric, in the order of the data.
abbrev pub samples : Text → List MetricData → List MetricData
samples name metrics_data = keep (λ (m : MetricData). text_eq m.metric_name name) metrics_data

get-samples :
    (name : Text) (metrics_data : List MetricData)
    → get name (metrics_by_name metrics_data) ≡ samples name metrics_data
unfolding metrics_by_name
get-samples name metrics_data =
    get-group (λ (m : MetricData). some (m.metric_name, tt)) name metrics_data

module _ (time_of : Text → ℕ) where
  -- No sample is older, or none is younger.
  pub record IsOldest (ms : List MetricData) (m : MetricData) : Type 0 where
    pub member : In m ms
    pub oldest : (other : MetricData) → In other ms → time_of m.timestamp ≤ time_of other.timestamp

  pub record IsYoungest (ms : List MetricData) (m : MetricData) : Type 0 where
    pub member : In m ms
    pub youngest :
        (other : MetricData) → In other ms → time_of other.timestamp ≤ time_of m.timestamp

  first-IsOldest :
      (m : MetricData) (ms : List MetricData)
      → IsSorted (earlier_first time_of) (m ∷ ms)
      → IsOldest (m ∷ ms) m
  first-IsOldest m ms h = record {
    member = here;
    oldest = λ other i. elim (In-cons i) [
      | inl same ↦ rw same (leb→le _ _ (leb_refl (time_of m.timestamp)))
      | inr j ↦ leb→le _ _ (All-In _ h.0 j)
    ];
  }

  last-IsYoungest :
      (m : MetricData) (ms : List MetricData)
      → IsSorted (earlier_first time_of) (m ∷ ms)
      → (last : MetricData) × (last_of (m ∷ ms) ≡ some last) × IsYoungest (m ∷ ms) last
  last-IsYoungest m [] h = (
    m,
    refl,
    record {
      member = here;
      youngest = λ other i. elim (In-cons i) [
        | inl same ↦ rw same (leb→le _ _ (leb_refl (time_of m.timestamp)))
        | inr j ↦ elim j [ ]
      ];
    },
  )
  last-IsYoungest m (n ∷ ms) h =
      let (last, e, young) = last-IsYoungest n ms h.1 in
      (
        last,
        e,
        record {
          member = there young.member;
          youngest = λ other i. elim (In-cons i) [
            | inl same ↦ rw same (leb→le _ _ (All-In _ h.0 young.member))
            | inr j ↦ young.youngest other j
          ];
        },
      )

  IsOldest-sort :
      (ms : List MetricData) (m : MetricData)
      → IsOldest (sort (earlier_first time_of) ms) m
      → IsOldest ms m
  IsOldest-sort ms m h = record {
    member = (sort-In (earlier_first time_of) ms).0 h.member;
    oldest = λ other i. h.oldest other ((sort-In (earlier_first time_of) ms).1 i);
  }

  IsYoungest-sort :
      (ms : List MetricData) (m : MetricData)
      → IsYoungest (sort (earlier_first time_of) ms) m
      → IsYoungest ms m
  IsYoungest-sort ms m h = record {
    member = (sort-In (earlier_first time_of) ms).0 h.member;
    youngest = λ other i. h.youngest other ((sort-In (earlier_first time_of) ms).1 i);
  }

  earlier-IsOrder : IsOrder (earlier_first time_of)
  earlier-IsOrder = up-IsOrder (λ (m : MetricData). time_of m.timestamp)

  -- The two readings that the usage is computed from.
  abbrev Span : List MetricData → List HealthMetric → Type 0
  Span readings shown =
      (first : MetricData) × (last : MetricData) × IsOldest readings first
      × IsYoungest readings last
      × (time_of first.timestamp ≤ time_of last.timestamp)
      × (shown
          ≡ cpu_usage first.value last.value (time_of last.timestamp - time_of first.timestamp)
            ∷ [])

  span :
      (readings sorted : List MetricData)
      → sort (earlier_first time_of) readings ≡ sorted
      → 2 ≤ length readings
      → Span readings (cpu_of time_of (first_of sorted) (last_of sorted))
  span readings [] e h = absurd (too_few (length-sort (earlier_first time_of) readings) e)
    where
      too_few :
          length (sort (earlier_first time_of) readings) ≡ length readings
          → sort (earlier_first time_of) readings ≡ []
          → ⊥
      too_few same none_left =
          let zero : length (sort (earlier_first time_of) readings) ≡ 0 = ap length none_left in
          omega (arith, same, zero, h)
  span readings (m ∷ ms) e h =
      let order =
        subst (IsSorted (earlier_first time_of)) e (sort-IsSorted _ earlier-IsOrder readings) in
      let (last, found, young) = last-IsYoungest m ms order in
      let old = first-IsOldest m ms order in
      (
        m,
        last,
        IsOldest-sort readings m (subst (λ l. IsOldest l m) (sym e) old),
        IsYoungest-sort readings last (subst (λ l. IsYoungest l last) (sym e) young),
        young.youngest m here,
        ap (cpu_of time_of (some m)) found,
      )

  -- The CPU usage, where there are two readings, is computed from an oldest and a youngest of them, in
  -- whatever order they come, and the time between them is not negative.
  pub cpu-IsSpan :
      (metrics_data : List MetricData)
      → 2 ≤ length (samples (text "otelcol_process_cpu_seconds") metrics_data)
      → Span
          (samples (text "otelcol_process_cpu_seconds") metrics_data)
          (cpu time_of (metrics_by_name metrics_data))
  unfolding cpu
  cpu-IsSpan metrics_data h =
      let name = text "otelcol_process_cpu_seconds" in
      let enough : leb 2 (length (samples name metrics_data)) ≡ true = ground arith in
      rw (get-samples name metrics_data, enough) (span (samples name metrics_data) _ refl h)

  memory_of :
      (ms : List MetricData) (m : MetricData)
      → In m ms
      → IsSorted (earlier_first time_of) ms
      → (young : MetricData) × IsYoungest ms young
        × (memory_shown (last_of ms) ≡ memory_usage (mega_bytes_of young.value) ∷ [])
  memory_of [] m i h = elim i [ ]
  memory_of (n ∷ ms) m i h =
      let (last, found, young) = last-IsYoungest n ms h in (last, young, ap memory_shown found)

  first_of_samples :
      (ms : List MetricData) (m : MetricData)
      → In m ms
      → IsSorted (earlier_first time_of) ms
      → (old : MetricData) × IsOldest ms old × (value_or_zero (first_of ms) ≡ old.value)
  first_of_samples [] m i h = elim i [ ]
  first_of_samples (n ∷ ms) m i h = (n, first-IsOldest n ms h, refl)

  -- Where the data comes in ascending order of time and holds samples of the memory and of accepted
  -- spans, the memory is that of a youngest sample, but the spans are counted by an oldest one.
  pub received-IsOldest :
      (metrics_data : List MetricData) (mem spans : MetricData)
      → IsSorted (earlier_first time_of) metrics_data
      → In mem (samples (text "otelcol_process_memory_rss") metrics_data)
      → In spans (samples (text "otelcol_receiver_accepted_spans") metrics_data)
      → ((young : MetricData) × IsYoungest
            (samples (text "otelcol_process_memory_rss") metrics_data)
            young
          × (memory (metrics_by_name metrics_data) ≡ memory_usage (mega_bytes_of young.value) ∷ []))
        × ((old : MetricData) × IsOldest
              (samples (text "otelcol_receiver_accepted_spans") metrics_data)
              old
            × (first_value (text "otelcol_receiver_accepted_spans") (metrics_by_name metrics_data)
                ≡ old.value))
  unfolding memory first_value
  received-IsOldest metrics_data mem spans order i j = (
    rw (get-samples (text "otelcol_process_memory_rss") metrics_data) (
        memory_of (samples (text "otelcol_process_memory_rss") metrics_data) mem i
          (keep-IsSorted (earlier_first time_of) _ metrics_data order)),
    rw (get-samples (text "otelcol_receiver_accepted_spans") metrics_data) (
        first_of_samples (samples (text "otelcol_receiver_accepted_spans") metrics_data) spans j
          (keep-IsSorted (earlier_first time_of) _ metrics_data order)),
  )
