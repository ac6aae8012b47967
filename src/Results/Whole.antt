-- ===== src/Results/Whole.antt =====
-- QueryResults.tsx: a row leaves no label out that it does not announce.
use otel_hive.Base.{
  ℕ, ◌-◌, ◌≤◌, ◌<◌, ◌≡◌, ◌≢◌, ◌⊎◌, refl, subst, inl, inr, sym, Bool, true, false, ◌||◌, Option,
  none, some, List, [], ◌∷◌, ◌++◌, map, keep, length, take, drop, ltb, if◌then◌else◌, Bool-cases,
  take-append-drop, length-drop, arith,
}
use otel_hive.Text.{Text, text, text_eq}
use otel_hive.Text.Laws.{text_eq→eq, ne-of_text_eq}
use otel_hive.Agents.{Labels, or_no_labels}
use otel_hive.Results.{
  Result, RowView, RowDetails, row_view, row_details, is_other, other_labels, should_show_expand,
  has_long_value, has_data, label_badge, format_value,
}

abbrev pub or_zero : Option ℕ → ℕ
or_zero none = 0
or_zero (some n) = n

-- The label is not one of those that name the result.
abbrev pub IsUnnaming : Text × Text → Type 0
IsUnnaming (key, value) = (key ≢ text "__name__") × (key ≢ text "name")

-- The elements of a list with a property, in order.
pub data Filters {A : Type 0} (P : A → Type 0) : List A → List A → Type 0 where
  none_left : Filters P [] []
  has : {x : A} {xs ys : List A} → P x → Filters P xs ys → Filters P (x ∷ xs) (x ∷ ys)
  lacks : {x : A} {xs ys : List A} → ¬ P x → Filters P xs ys → Filters P (x ∷ xs) ys

-- A badge has the key of its label, and the value in full up to 20 code units, or else the first 20.
abbrev pub IsBadge : Text × Text → Text × Text → Type 0
IsBadge (key, value) (k, v) =
    (k ≡ key)
    × (((length value ≤ 20) × (v ≡ value))
        ⊎ ((20 < length value) × (v ≡ take 20 value ++ text "...")))

-- The badges of labels, one for each.
abbrev pub Badges : Labels → Labels → Type 0
Badges [] [] = Unit
Badges (l ∷ ls) (b ∷ bs) = IsBadge l b × Badges ls bs
Badges _ _ = ⊥

is_other-IsUnnaming :
    (l : Text × Text)
    → ((is_other l ≡ true) × IsUnnaming l) ⊎ ((is_other l ≡ false) × ¬ IsUnnaming l)
unfolding is_other
is_other-IsUnnaming (key, value) = elim (Bool-cases (text_eq key (text "__name__"))) [
  | inl e ↦ inr (rw e refl, λ h. h.0 (text_eq→eq key (text "__name__") e))
  | inr e ↦ elim (Bool-cases (text_eq key (text "name"))) [
    | inl f ↦ inr (rw (e, f) refl, λ h. h.1 (text_eq→eq key (text "name") f))
    | inr f ↦ inl (rw (e, f) refl, (ne-of_text_eq key _ e, ne-of_text_eq key _ f))
  ]
]

keep-Filters : (ls : Labels) → Filters IsUnnaming ls (keep is_other ls)
keep-Filters [] = none_left
keep-Filters (l ∷ ls) = elim (is_other-IsUnnaming l) [
  | inl (e, h) ↦ rw e (has h (keep-Filters ls))
  | inr (e, h) ↦ rw e (lacks h (keep-Filters ls))
]

label_badge-IsBadge : (l : Text × Text) → IsBadge l (label_badge l)
label_badge-IsBadge (key, value) = elim (Bool-cases (ltb 20 (length value))) [
  | inl e ↦ (refl, inr (ground arith, rw e refl))
  | inr e ↦ (refl, inl (ground arith, rw e refl))
]

map-Badges : (ls : Labels) → Badges ls (map label_badge ls)
map-Badges [] = tt
map-Badges (l ∷ ls) = (label_badge-IsBadge l, map-Badges ls)

announced_rest :
    (ls : Labels)
    → or_zero (if ltb 3 (length ls) then some (length ls - 3) else none) ≡ length (drop 3 ls)
announced_rest ls = elim (Bool-cases (ltb 3 (length ls))) [
  | inl e ↦ rw e (sym (length-drop 3 ls))
  | inr e ↦ let few : length ls ≤ 3 = ground arith in rw e (omega (arith, few, length-drop 3 ls))
]

length-nil : (ls : Labels) → length ls ≡ 0 → ls ≡ []
length-nil [] h = refl
length-nil (l ∷ ls) h = absurd (omega (arith, h))

module _ {N O : Type 0} (to_locale : N → Text) (stringify : O → Text) (r : Result N O) where
  -- What a row that is not expanded shows.
  pub record IsAnnounced (v : RowView) : Type 0 where
    -- The labels that are shown and those that are only announced are all but those that name the
    -- result.
    pub shown : Labels
    pub rest : Labels
    pub others : Filters IsUnnaming (or_no_labels r.labels) (shown ++ rest)
    pub badges : Badges shown v.labels
    pub announced : or_zero v.more ≡ length rest
    -- Where some are only announced there is a button.
    pub button : (v.expand ≡ some false) ⊎ (rest ≡ [])

  -- What a row that is expanded shows.
  pub record IsWhole (v : RowView) : Type 0 where
    pub shown : Labels
    pub others : Filters IsUnnaming (or_no_labels r.labels) shown
    pub badges : Badges shown v.labels
    pub no_more : v.more ≡ none
    -- Below it, all of them stand with their values, and a long value of the row in full.
    pub below : RowDetails
    pub details : v.details ≡ some below
    pub all_labels : below.all_labels ≡ shown
    pub full_value :
        ((50 < length v.value) × (below.full_value ≡ some v.value))
        ⊎ ((length v.value ≤ 50) × (below.full_value ≡ none))

  many : ltb 3 (length (other_labels r)) ≡ true → should_show_expand to_locale stringify r ≡ true
  unfolding should_show_expand
  many h = rw h (last (has_long_value to_locale stringify r) (has_data r.data_))
    where
      last : (a b : Bool) → (a || true || b) ≡ true
      last a b = ground arith

  announced_or_shown :
      ((row_view to_locale stringify r false).expand ≡ some false) ⊎ (drop 3 (other_labels r) ≡ [])
  unfolding row_view
  announced_or_shown = elim (Bool-cases (ltb 3 (length (other_labels r)))) [
    | inl e ↦ inl (rw (many e) refl)
    | inr e ↦
        let few : length (other_labels r) ≤ 3 = ground arith in
        inr (length-nil _ (omega (arith, few, length-drop 3 (other_labels r))))
  ]

  others_of : Filters IsUnnaming (or_no_labels r.labels) (other_labels r)
  unfolding other_labels
  others_of = keep-Filters (or_no_labels r.labels)

  row-IsAnnounced : IsAnnounced (row_view to_locale stringify r false)
  unfolding row_view
  row-IsAnnounced = record {
    shown = take 3 (other_labels r);
    rest = drop 3 (other_labels r);
    others =
        subst (Filters IsUnnaming (or_no_labels r.labels))
          (sym (take-append-drop 3 (other_labels r))) others_of;
    badges = map-Badges (take 3 (other_labels r));
    announced = announced_rest (other_labels r);
    button = announced_or_shown;
  }

  full_value_of :
      ((50 < length (format_value to_locale stringify r.value))
        × ((row_details to_locale stringify r).full_value
            ≡ some (format_value to_locale stringify r.value)))
      ⊎ ((length (format_value to_locale stringify r.value) ≤ 50)
          × ((row_details to_locale stringify r).full_value ≡ none))
  full_value_of =
      let value = format_value to_locale stringify r.value in
      elim (Bool-cases (ltb 50 (length value))) [
        | inl e ↦ inl (ground arith, rw e refl)
        | inr e ↦ inr (ground arith, rw e refl)
      ]

  row-IsWhole : IsWhole (row_view to_locale stringify r true)
  unfolding row_view
  row-IsWhole = record {
    shown = other_labels r;
    others = others_of;
    badges = map-Badges (other_labels r);
    no_more = refl;
    below = row_details to_locale stringify r;
    details = refl;
    all_labels = refl;
    full_value = full_value_of;
  }

  -- The badges of a row are those of its labels, in order, but for the labels `__name__` and `name`: a
  -- row that is not expanded announces the number of those that it leaves out and has a button where it
  -- leaves any out, and one that is expanded leaves none out and has them all with their full values
  -- below it, with the value of the row if that is longer than 50.
  pub row_view-IsWhole :
      IsAnnounced (row_view to_locale stringify r false)
      × IsWhole (row_view to_locale stringify r true)
  row_view-IsWhole = (row-IsAnnounced, row-IsWhole)
