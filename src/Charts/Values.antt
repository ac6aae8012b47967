-- ===== src/Charts/Values.antt =====
-- QueryResultsChart.tsx: which value a point has for a series.
use otel_hive.Base.{
  ℕ, ◌≡◌, ◌⊎◌, All, true, false, ◌++◌, subst, sym, refl, ap, ◌∙◌, inl, inr, Bool, ◌&&◌, Option,
  none, some, List, [], ◌∷◌, Bool-cases, if◌then◌else◌,
}
use otel_hive.Text.{Text, text, text_eq}
use otel_hive.Text.Laws.{text_eq→eq, ne-of_text_eq}
use otel_hive.Grouping.Laws.{apart}
use otel_hive.Charts.{
  Value, number, other, join_labels, or_value, QueryResult, DataPoint, series_key, set_series,
  add_result, num_value, chart_from, chart_data,
}

-- The value of a series, where there is one.
unfoldable pub series_value : Text → List (Text × ℕ) → Option ℕ
series_value k [] = none
series_value k ((j, w) ∷ series) = if text_eq j k then some w else series_value k series

-- The value that the chart has at a time for a series.
unfoldable pub value_at : Text → Text → List DataPoint → Option ℕ
unfolding series_value
value_at t k [] = none
value_at t k (p ∷ ps) = if text_eq p.timestamp t then series_value k p.series else value_at t k ps

series_value-set_series :
    (k j : Text) (v : ℕ) (series : List (Text × ℕ))
    → series_value k (set_series j v series)
      ≡ (if text_eq j k then some v else series_value k series)
unfolding series_value set_series
series_value-set_series k j v [] = refl
series_value-set_series k j v ((i, w) ∷ series) = elim (Bool-cases (text_eq i j)) [
  | inl same ↦
      let e : text_eq i k ≡ text_eq j k = ap (λ x. text_eq x k) (text_eq→eq i j same) in
      elim (Bool-cases (text_eq j k)) [
        | inl f ↦ rw (same, e, f) refl
        | inr f ↦ rw (same, e, f) refl
      ]
  | inr differ ↦ elim (Bool-cases (text_eq i k)) [
    | inl hit ↦ rw (differ, hit, apart i j k differ hit) refl
    | inr miss ↦ rw (differ, miss) (series_value-set_series k j v series)
  ]
]

value_at-add_result :
    (t k u j : Text) (v : ℕ) (ps : List DataPoint)
    → value_at t k (add_result u j v ps)
      ≡ (if text_eq u t && text_eq j k then some v else value_at t k ps)
unfolding value_at add_result series_value
value_at-add_result t k u j v [] = elim (Bool-cases (text_eq u t)) [
  | inl e ↦ rw e refl
  | inr e ↦ rw e refl
]
value_at-add_result t k u j v (p ∷ ps) = elim (Bool-cases (text_eq p.timestamp u)) [
  | inl same ↦
      let e : text_eq p.timestamp t ≡ text_eq u t =
        ap (λ x. text_eq x t) (text_eq→eq p.timestamp u same) in
      elim (Bool-cases (text_eq u t)) [
        | inl f ↦ rw (same, e, f) (series_value-set_series k j v p.series)
        | inr f ↦ rw (same, e, f) refl
      ]
  | inr differ ↦ elim (Bool-cases (text_eq p.timestamp t)) [
    | inl hit ↦ rw (differ, hit, apart p.timestamp u t differ hit) refl
    | inr miss ↦ rw (differ, miss) (value_at-add_result t k u j v ps)
  ]
]

-- `key=value` of each label, with commas between.
pub data Joins : List (Text × Text) → Text → Type 0 where
  one : {k v s : Text} → s ≡ k ++ (b'=' ∷ v) → Joins ((k, v) ∷ []) s
  more :
      {k v s t : Text} {l : Text × Text} {ls : List (Text × Text)}
      → Joins (l ∷ ls) t
      → s ≡ (k ++ (b'=' ∷ v)) ++ (b',' ∷ t)
      → Joins ((k, v) ∷ l ∷ ls) s

-- The name of the series of a result with these labels.
pub data IsSeries : Option (List (Text × Text)) → Text → Type 0 where
  no_labels : IsSeries none (text "value")
  empty : IsSeries (some []) (text "value")
  joined : {ls : List (Text × Text)} {s : Text} → Joins ls s → IsSeries (some ls) s

or_value_pair : (k v : Text) → or_value (k ++ (61 ∷ v)) ≡ k ++ (61 ∷ v)
or_value_pair [] v = refl
or_value_pair (c ∷ k) v = refl

or_value_pairs : (k v t : Text) → or_value ((k ++ (61 ∷ v)) ++ t) ≡ (k ++ (61 ∷ v)) ++ t
or_value_pairs [] v t = refl
or_value_pairs (c ∷ k) v t = refl

join_labels-Joins :
    (l : Text × Text) (ls : List (Text × Text)) → Joins (l ∷ ls) (join_labels (l ∷ ls))
join_labels-Joins (k, v) [] = one refl
join_labels-Joins (k, v) (l ∷ ls) = more (join_labels-Joins l ls) refl

Joins-join_labels : {ls : List (Text × Text)} {s : Text} → Joins ls s → join_labels ls ≡ s
Joins-join_labels (one e) = sym e
Joins-join_labels (more {k} {v} j e) =
    ap (λ t. (k ++ (61 ∷ v)) ++ (44 ∷ t)) (Joins-join_labels j) ∙ sym e

or_value_join :
    (l : Text × Text) (ls : List (Text × Text)) → series_key (some (l ∷ ls)) ≡ join_labels (l ∷ ls)
or_value_join (k, v) [] = or_value_pair k v
or_value_join (k, v) (l ∷ ls) = or_value_pairs k v (44 ∷ join_labels (l ∷ ls))

series_key-IsSeries : (o : Option (List (Text × Text))) → IsSeries o (series_key o)
series_key-IsSeries none = no_labels
series_key-IsSeries (some []) = empty
series_key-IsSeries (some (l ∷ ls)) =
    subst (IsSeries (some (l ∷ ls))) (sym (or_value_join l ls)) (joined (join_labels-Joins l ls))

IsSeries-series_key : {o : Option (List (Text × Text))} {s : Text} → IsSeries o s → series_key o ≡ s
IsSeries-series_key no_labels = refl
IsSeries-series_key empty = refl
IsSeries-series_key (joined (one {k} {v} e)) = or_value_pair k v ∙ Joins-join_labels (one e)
IsSeries-series_key (joined (more {k} {v} {l} {ls} j e)) =
    or_value_join (k, v) (l ∷ ls) ∙ Joins-join_labels (more j e)

module _ {V : Type 0} (parse_float : V → ℕ) (clock : Text → Text) where
  -- What a value counts as: a number as itself, and all else as it is parsed.
  pub data Reads : Value V → ℕ → Type 0 where
    as_number : {n : ℕ} → Reads (number n) n
    as_parsed : {v : V} → Reads (other v) (parse_float v)

  -- The result is of that time and of that series.
  abbrev pub IsAt : Text → Text → QueryResult V → Type 0
  IsAt t k r = (clock r.timestamp ≡ t) × IsSeries r.labels k

  -- No result is of that time and that series, or the last one that is has this value.
  abbrev pub IsLast : Text → Text → List (QueryResult V) → Option ℕ → Type 0
  IsLast t k results o =
      ((o ≡ none) × All (λ r. ¬ IsAt t k r) results)
      ⊎ ((before : List (QueryResult V)) × (r : QueryResult V) × (after : List (QueryResult V))
          × (results ≡ before ++ (r ∷ after))
          × IsAt t k r
          × All (λ q. ¬ IsAt t k q) after
          × ((v : ℕ) × Reads r.value v × (o ≡ some v)))

  abbrev is_at : Text → Text → QueryResult V → Bool
  is_at t k r = text_eq (clock r.timestamp) t && text_eq (series_key r.labels) k

  abbrev last_value : Text → Text → List (QueryResult V) → Option ℕ → Option ℕ
  last_value t k [] before = before
  last_value t k (r ∷ rs) before =
      last_value t k rs (if is_at t k r then some (num_value parse_float clock r.value) else before)

  num_value-Reads : (v : Value V) → Reads v (num_value parse_float clock v)
  num_value-Reads (number n) = as_number
  num_value-Reads (other v) = as_parsed

  is_at-cases :
      (t k : Text) (r : QueryResult V)
      → ((is_at t k r ≡ true) × IsAt t k r) ⊎ ((is_at t k r ≡ false) × ¬ IsAt t k r)
  is_at-cases t k r = elim (Bool-cases (text_eq (clock r.timestamp) t)) [
    | inr e ↦ inr (rw e refl, λ h. ne-of_text_eq _ _ e h.0)
    | inl e ↦ elim (Bool-cases (text_eq (series_key r.labels) k)) [
      | inl f ↦ inl (
        rw (e, f) refl,
        (
          text_eq→eq _ _ e,
          subst (IsSeries r.labels) (text_eq→eq _ _ f) (series_key-IsSeries r.labels),
        ),
      )
      | inr f ↦ inr (rw (e, f) refl, λ h. ne-of_text_eq _ _ f (IsSeries-series_key h.1))
    ]
  ]

  -- The last value from here on, or the one from before.
  abbrev IsLastFrom : Text → Text → List (QueryResult V) → (from o : Option ℕ) → Type 0
  IsLastFrom t k results from o =
      ((o ≡ from) × All (λ r. ¬ IsAt t k r) results)
      ⊎ ((before : List (QueryResult V)) × (r : QueryResult V) × (after : List (QueryResult V))
          × (results ≡ before ++ (r ∷ after))
          × IsAt t k r
          × All (λ q. ¬ IsAt t k q) after
          × ((v : ℕ) × Reads r.value v × (o ≡ some v)))

  last_value-IsLastFrom :
      (t k : Text) (rs : List (QueryResult V)) (from : Option ℕ)
      → IsLastFrom t k rs from (last_value t k rs from)
  last_value-IsLastFrom t k [] from = inl (refl, tt)
  last_value-IsLastFrom t k (r ∷ rs) from = elim (is_at-cases t k r) [
    | inl (e, at) ↦
        rw e (elim (last_value-IsLastFrom t k rs (some (num_value parse_float clock r.value))) [
          | inl (same, absent) ↦ inr (
            [],
            r,
            rs,
            refl,
            at,
            absent,
            (num_value parse_float clock r.value, num_value-Reads r.value, same),
          )
          | inr (before, q, after, parts, is, absent, found) ↦
              inr (r ∷ before, q, after, ap (◌∷◌ r) parts, is, absent, found)
        ])
    | inr (e, apart_from) ↦ rw e (elim (last_value-IsLastFrom t k rs from) [
      | inl (same, absent) ↦ inl (same, (apart_from, absent))
      | inr (before, q, after, parts, is, absent, found) ↦
          inr (r ∷ before, q, after, ap (◌∷◌ r) parts, is, absent, found)
    ])
  ]

  value_at-chart_from :
      (t k : Text) (rs : List (QueryResult V)) (ps : List DataPoint)
      → value_at t k (chart_from parse_float clock rs ps) ≡ last_value t k rs (value_at t k ps)
  unfolding chart_from
  value_at-chart_from t k [] ps = refl
  value_at-chart_from t k (r ∷ rs) ps =
      value_at-chart_from t k rs _
      ∙ ap (last_value t k rs) (
          value_at-add_result t k (clock r.timestamp) (series_key r.labels)
            (num_value parse_float clock r.value) ps)

  -- At a time of day the chart has for a series the value of the last result that is of this time and
  -- this series, and none where there is no such result. The series of a result is named by its labels,
  -- `key=value` with commas between, or `value` without any; its value is a number or is parsed to one.
  pub value_at-chart_data :
      (t k : Text) (results : List (QueryResult V))
      → IsLast t k results (value_at t k (chart_data parse_float clock results))
  unfolding chart_data value_at
  value_at-chart_data t k results =
      subst (IsLast t k results) (sym (value_at-chart_from t k results []))
        (last_value-IsLastFrom t k results none)
