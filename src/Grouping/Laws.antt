-- ===== src/Grouping/Laws.antt =====
-- What such a map holds: under each key, the items of that key in their order.
use otel_hive.Base.{
  ◌≡◌, refl, sym, ap, subst, ◌∙◌, inl, inr, Bool, true, false, Option, none, some, List, [], ◌∷◌,
  ◌++◌, append_assoc, append-nil, keep, In, here, there, In-append_left, All, Bool-cases,
  Option-cases,
}
use otel_hive.Text.{Text, text_eq}
use otel_hive.Text.Laws.{text_eq→eq, text_eq_refl}
use otel_hive.Grouping.{Group, push, group_into, group, get, has_key}

pub apart : (s t u : Text) → text_eq s t ≡ false → text_eq s u ≡ true → text_eq t u ≡ false
apart s t u h k = elim (Bool-cases (text_eq t u)) [
  | inl e ↦
      let same : s ≡ t = text_eq→eq s u k ∙ sym (text_eq→eq t u e) in
      let always : text_eq s s ≡ true = text_eq_refl s in cc
  | inr e ↦ e
]

module _ {ℓ} {A : Type ℓ} where
  -- One item, where it has the key.
  abbrev only : Bool → A → List A
  only true a = a ∷ []
  only false a = []

  keep-cons : (p : A → Bool) (a : A) (xs : List A) → keep p (a ∷ xs) ≡ only (p a) a ++ keep p xs
  keep-cons p a xs = elim (Bool-cases (p a)) [ inl e ↦ rw e refl | inr e ↦ rw e refl ]

module _ {ℓ κ} {B : Type κ} {A : Type ℓ} where
  get-push :
      (k : Text) (o : Option (Text × B)) (a : A) (gs : List (Group B A))
      → get k (push o a gs) ≡ get k gs ++ only (has_key k o) a
  unfolding push get
  get-push k none a gs = sym (append-nil (get k gs))
  get-push k (some (j, b)) a [] = elim (Bool-cases (text_eq j k)) [
    | inl e ↦ rw e refl
    | inr e ↦ rw e refl
  ]
  get-push k (some (j, b)) a (g ∷ gs) = elim (Bool-cases (text_eq g.key j)) [
    | inl same ↦ elim (Bool-cases (text_eq g.key k)) [
      | inl hit ↦
          let e : text_eq j k ≡ true =
            subst (λ t. text_eq t k ≡ true) (text_eq→eq g.key j same) hit in
          rw (same, hit, e) refl
      | inr miss ↦
          let e : text_eq j k ≡ false =
            subst (λ t. text_eq t k ≡ false) (text_eq→eq g.key j same) miss in
          rw (same, miss, e) (sym (append-nil (get k gs)))
    ]
    | inr other ↦ elim (Bool-cases (text_eq g.key k)) [
      | inl hit ↦ rw (other, hit, apart g.key j k other hit) (sym (append-nil g.items))
      | inr miss ↦ rw (other, miss) (get-push k (some (j, b)) a gs)
    ]
  ]

  get-group_into :
      (f : A → Option (Text × B)) (k : Text) (xs : List A) (gs : List (Group B A))
      → get k (group_into f xs gs) ≡ get k gs ++ keep (λ a. has_key k (f a)) xs
  unfolding group_into
  get-group_into f k [] gs = sym (append-nil (get k gs))
  get-group_into f k (a ∷ xs) gs =
      get-group_into f k xs (push (f a) a gs)
      ∙ ap (λ l. l ++ keep (λ x. has_key k (f x)) xs) (get-push k (f a) a gs)
      ∙ append_assoc (get k gs) (only (has_key k (f a)) a) _
      ∙ ap (◌++◌ (get k gs)) (sym (keep-cons (λ x. has_key k (f x)) a xs))

  pub get-group :
      (f : A → Option (Text × B)) (k : Text) (xs : List A)
      → get k (group f xs) ≡ keep (λ a. has_key k (f a)) xs
  unfolding group get
  get-group f k xs = get-group_into f k xs []

  abbrev Fresh : Text → List (Group B A) → Type 0
  Fresh k gs = All (λ (g : Group B A). text_eq k g.key ≡ false) gs

  -- No two entries have the same key.
  abbrev Distinct : List (Group B A) → Type 0
  Distinct [] = Unit
  Distinct (g ∷ gs) = Fresh g.key gs × Distinct gs

  Fresh-push :
      (k j : Text) (b : B) (a : A) (gs : List (Group B A))
      → text_eq k j ≡ false
      → Fresh k gs
      → Fresh k (push (some (j, b)) a gs)
  unfolding push
  Fresh-push k j b a [] h fresh = (h, tt)
  Fresh-push k j b a (g ∷ gs) h fresh = elim (Bool-cases (text_eq g.key j)) [
    | inl e ↦ rw e fresh
    | inr e ↦ rw e (fresh.0, Fresh-push k j b a gs h fresh.1)
  ]

  push-Distinct :
      (o : Option (Text × B)) (a : A) (gs : List (Group B A)) → Distinct gs → Distinct (push o a gs)
  unfolding push
  push-Distinct none a gs h = h
  push-Distinct (some (j, b)) a [] h = (tt, tt)
  push-Distinct (some (j, b)) a (g ∷ gs) h = elim (Bool-cases (text_eq g.key j)) [
    | inl e ↦ rw e h
    | inr e ↦ rw e (Fresh-push g.key j b a gs e h.0, push-Distinct (some (j, b)) a gs h.1)
  ]

  group_into-Distinct :
      (f : A → Option (Text × B)) (xs : List A) (gs : List (Group B A))
      → Distinct gs
      → Distinct (group_into f xs gs)
  unfolding group_into
  group_into-Distinct f [] gs h = h
  group_into-Distinct f (a ∷ xs) gs h =
      group_into-Distinct f xs (push (f a) a gs) (push-Distinct (f a) a gs h)

  get_below :
      (g : Group B A) (gs hs : List (Group B A))
      → Fresh g.key hs
      → All (λ (h : Group B A). get h.key gs ≡ h.items) hs
      → All (λ (h : Group B A). get h.key (g ∷ gs) ≡ h.items) hs
  unfolding get
  get_below g gs [] fresh k = tt
  get_below g gs (h ∷ hs) fresh k = (rw fresh.0 k.0, get_below g gs hs fresh.1 k.1)

  get-entries :
      (gs : List (Group B A)) → Distinct gs → All (λ (g : Group B A). get g.key gs ≡ g.items) gs
  unfolding get
  get-entries [] h = tt
  get-entries (g ∷ gs) h =
      (rw (text_eq_refl g.key) refl, get_below g gs gs h.0 (get-entries gs h.1))

  -- Every entry holds an item, and its tag belongs to its key.
  abbrev Filled : (Text → B → Type κ) → Group B A → Type (ℓ ⊔ κ)
  Filled Q g = Q g.key g.tag × (a : A) × In a g.items

  push-Filled :
      (Q : Text → B → Type κ) (k : Text) (b : B) (a : A) (gs : List (Group B A))
      → Q k b
      → All (Filled Q) gs
      → All (Filled Q) (push (some (k, b)) a gs)
  unfolding push
  push-Filled Q k b a [] q h = ((q, a, here), tt)
  push-Filled Q k b a (g ∷ gs) q ((tagged, x, i), h) = elim (Bool-cases (text_eq g.key k)) [
    | inl e ↦ rw e ((tagged, x, In-append_left (a ∷ []) i), h)
    | inr e ↦ rw e ((tagged, x, i), push-Filled Q k b a gs q h)
  ]

  group_into-Filled :
      (Q : Text → B → Type κ) (f : A → Option (Text × B))
      (tagged : (a : A) (k : Text) (b : B) → f a ≡ some (k, b) → Q k b) (xs : List A)
      (gs : List (Group B A))
      → All (Filled Q) gs
      → All (Filled Q) (group_into f xs gs)
  unfolding group_into
  group_into-Filled Q f tagged [] gs h = h
  group_into-Filled Q f tagged (a ∷ xs) gs h =
      group_into-Filled Q f tagged xs (push (f a) a gs) (elim (Option-cases (f a)) [
        | inl e ↦ rw (e, push) h
        | inr ((k, b), e) ↦ rw e (push-Filled Q k b a gs (tagged a k b e) h)
      ])

  -- What an entry of the finished map is.
  pub record IsEntry (Q : Text → B → Type κ) (f : A → Option (Text × B)) (xs : List A)
      (g : Group B A) : Type (ℓ ⊔ κ) where
    pub tagged : Q g.key g.tag
    pub filled : (a : A) × In a g.items
    pub items : g.items ≡ keep (λ a. has_key g.key (f a)) xs

  entries :
      (Q : Text → B → Type κ) (f : A → Option (Text × B)) (xs : List A) (gs : List (Group B A))
      → All (Filled Q) gs
      → All (λ (g : Group B A). get g.key (group f xs) ≡ g.items) gs
      → All (IsEntry Q f xs) gs
  entries Q f xs [] h k = tt
  entries Q f xs (g ∷ gs) ((q, a, i), h) k = (
    record { tagged = q; filled = (a, i); items = sym k.0 ∙ get-group f g.key xs },
    entries Q f xs gs h k.1,
  )

  pub group-IsEntry :
      (Q : Text → B → Type κ) (f : A → Option (Text × B))
      (tagged : (a : A) (k : Text) (b : B) → f a ≡ some (k, b) → Q k b) (xs : List A)
      → All (IsEntry Q f xs) (group f xs)
  unfolding group
  group-IsEntry Q f tagged xs =
      entries Q f xs (group f xs) (group_into-Filled Q f tagged xs [] tt)
        (get-entries (group f xs) (group_into-Distinct f xs [] tt))

  -- What is found under a key is the array of an entry.
  pub get-In :
      (k : Text) (a : A) (gs : List (Group B A))
      → In a (get k gs)
      → (g : Group B A) × In g gs × (g.key ≡ k) × In a g.items
  unfolding get
  get-In k a [] i = elim i [ ]
  get-In k a (g ∷ gs) i = elim (Bool-cases (text_eq g.key k)) [
    | inl e ↦ (g, here, text_eq→eq g.key k e, rw (e, get) at i)
    | inr e ↦ let (h, at, same, j) = get-In k a gs (rw (e, get) at i) in (h, there at, same, j)
  ]
