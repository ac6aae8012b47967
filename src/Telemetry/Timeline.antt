-- ===== src/Telemetry/Timeline.antt =====
-- TelemetryMetricsView.tsx: a slot counts the metrics of its time of day.
use otel_hive.Base.{
  ℕ, zero, suc, ◌+◌, ◌-◌, ◌≤◌, arith, ◌≡◌, refl, sym, ap, ◌∙◌, subst, inl, inr, Bool, Option, some,
  List, [], ◌∷◌, ◌++◌, map, length, length-append, keep, drop, length-drop, In, All, Bool-cases,
}
use otel_hive.Text.{Text, text_eq}
use otel_hive.Grouping.{Group, push, group_into, group}
use otel_hive.Grouping.Laws.{IsEntry, group-IsEntry}
use otel_hive.Metrics.{MetricData}
use otel_hive.Metrics.Card.{slice_last}
use otel_hive.Telemetry.{Slot, add_metric, slots_from, timeline}

abbrev pub total : List MetricData → ℕ
total [] = 0
total (m ∷ ms) = m.value + total ms

total-append : (ms : List MetricData) (m : MetricData) → total (ms ++ (m ∷ [])) ≡ total ms + m.value
total-append [] m = omega arith
total-append (n ∷ ms) m = omega (arith, total-append ms m)

module _ {ℓ κ} {A : Type ℓ} (P : A → Type κ) where
  All-drop : (n : ℕ) (xs : List A) → All P xs → All P (drop n xs)
  All-drop zero xs h = h
  All-drop (suc n) [] h = h
  All-drop (suc n) (x ∷ xs) h = All-drop n xs h.1

module _ (clock : Text → Text) where
  abbrev pub at_time : Text → MetricData → Bool
  at_time t m = text_eq (clock m.timestamp) t

  -- What a slot of the timeline is.
  pub record IsSlot (metrics : List MetricData) (s : Slot) : Type 0 where
    pub count : s.count ≡ length (keep (at_time s.time) metrics)
    pub total_value : s.total_value ≡ total (keep (at_time s.time) metrics)
    pub filled : (m : MetricData) × In m (keep (at_time s.time) metrics)

  key : MetricData → Option (Text × Unit {0})
  key m = some (clock m.timestamp, tt)

  slot : Group (Unit {0}) MetricData → Slot
  slot g = record { time = g.key; count = length g.items; total_value = total g.items }

  add_metric-push :
      (m : MetricData) (gs : List (Group (Unit {0}) MetricData))
      → add_metric clock m (map slot gs) ≡ map slot (push (key m) m gs)
  unfolding add_metric push key slot
  add_metric-push m [] =
      let value : 0 + m.value ≡ m.value + 0 = omega arith in
      let one : 0 + 1 ≡ 1 = omega arith in rw (one, value) refl
  add_metric-push m (g ∷ gs) = elim (Bool-cases (text_eq g.key (clock m.timestamp))) [
    | inl e ↦
        let one_more : length (g.items ++ (m ∷ [])) ≡ length g.items + 1 =
          omega (arith, length-append g.items (m ∷ [])) in
        rw (e, one_more, total-append g.items m) refl
    | inr e ↦ rw e (ap (◌∷◌ (slot g)) (add_metric-push m gs))
  ]

  slots_from-group_into :
      (ms : List MetricData) (gs : List (Group (Unit {0}) MetricData))
      → slots_from clock ms (map slot gs) ≡ map slot (group_into key ms gs)
  unfolding slots_from group_into
  slots_from-group_into [] gs = refl
  slots_from-group_into (m ∷ ms) gs =
      ap (slots_from clock ms) (add_metric-push m gs) ∙ slots_from-group_into ms (push (key m) m gs)

  entry-IsSlot :
      (metrics : List MetricData) (g : Group (Unit {0}) MetricData)
      → IsEntry (λ k b. Unit) key metrics g
      → IsSlot metrics (slot g)
  unfolding slot key
  entry-IsSlot metrics g h = record {
    count = ap length h.items;
    total_value = ap total h.items;
    filled = let (m, i) = h.filled in (m, subst (In m) h.items i);
  }

  entries-IsSlot :
      (metrics : List MetricData) (gs : List (Group (Unit {0}) MetricData))
      → All (IsEntry (λ k b. Unit) key metrics) gs
      → All (IsSlot metrics) (map slot gs)
  entries-IsSlot metrics [] h = tt
  entries-IsSlot metrics (g ∷ gs) h = (entry-IsSlot metrics g h.0, entries-IsSlot metrics gs h.1)

  slots-IsSlot : (metrics : List MetricData) → All (IsSlot metrics) (slots_from clock metrics [])
  unfolding group
  slots-IsSlot metrics = subst (All (IsSlot metrics)) (sym (slots_from-group_into metrics [])) (
      entries-IsSlot metrics (group key metrics)
        (group-IsEntry (λ k b. Unit) key (λ m k b e. tt) metrics))

  -- Each point of the timeline counts the metrics of its time of day, which are one at least, and sums
  -- their values; there are at most 20 points.
  pub timeline-IsSlot :
      (metrics : List MetricData)
      → All (IsSlot metrics) (timeline clock metrics) × (length (timeline clock metrics) ≤ 20)
  unfolding timeline slice_last
  timeline-IsSlot metrics =
      let slots = slots_from clock metrics [] in
      let n = length slots - 20 in
      (All-drop (IsSlot metrics) n slots (slots-IsSlot metrics), omega (arith, length-drop n slots))
