-- ===== src/Base/Lists.antt =====
-- Lists measured by native numbers, and predicates on lists by recursion.
use Prim.Native.Nat.{ℕ, zero, suc, ◌+◌, ◌-◌, ◌≤◌}
use mathlib.Core.Path.{◌≡◌, refl, sym, ap, subst, ◌∙◌}
use mathlib.Core.Logic.{◌↔◌, ◌⊎◌, inl, inr}
use mathlib.Core.List.{List, [], ◌∷◌, ◌++◌, map}
use mathlib.Core.Bool.{Bool, true, false}
use mathlib.Core.Option.{Option, none, some}
use native.Mathlib.Omega.{arith}
use otel_hive.Base.Tests.{if◌then◌else◌, Bool-cases}

module _ {ℓ} {A : Type ℓ} where
  abbrev pub length : List A → ℕ
  length [] = 0
  length (x ∷ xs) = suc (length xs)

  abbrev pub get_elem? : List A → ℕ → Option A
  get_elem? [] i = none
  get_elem? (x ∷ xs) zero = some x
  get_elem? (x ∷ xs) (suc i) = get_elem? xs i

  abbrev pub take : ℕ → List A → List A
  take zero xs = []
  take (suc n) [] = []
  take (suc n) (x ∷ xs) = x ∷ take n xs

  abbrev pub drop : ℕ → List A → List A
  drop zero xs = xs
  drop (suc n) [] = []
  drop (suc n) (x ∷ xs) = drop n xs

  -- `Array.prototype.filter` with a Boolean test.
  abbrev pub keep : (A → Bool) → List A → List A
  keep p [] = []
  keep p (x ∷ xs) = if p x then x ∷ keep p xs else keep p xs

  pub keep_ext : (p q : A → Bool) → ((x : A) → p x ≡ q x) → (xs : List A) → keep p xs ≡ keep q xs
  keep_ext p q h [] = refl
  keep_ext p q h (x ∷ xs) = rw (h x, keep_ext p q h xs) refl

  pub take-append-drop : (n : ℕ) (xs : List A) → take n xs ++ drop n xs ≡ xs
  take-append-drop zero xs = refl
  take-append-drop (suc n) [] = refl
  take-append-drop (suc n) (x ∷ xs) = ap (◌∷◌ x) (take-append-drop n xs)

  pub length-drop : (n : ℕ) (xs : List A) → length (drop n xs) ≡ length xs - n
  length-drop zero xs = omega arith
  length-drop (suc n) [] = omega arith
  length-drop (suc n) (x ∷ xs) = omega (arith, length-drop n xs)

  pub length-append : (xs ys : List A) → length (xs ++ ys) ≡ length xs + length ys
  length-append [] ys = omega arith
  length-append (x ∷ xs) ys = omega (arith, length-append xs ys)

  pub length-take-le : (n : ℕ) (xs : List A) → length (take n xs) ≤ n
  length-take-le zero xs = omega arith
  length-take-le (suc n) [] = omega arith
  length-take-le (suc n) (x ∷ xs) = omega (arith, length-take-le n xs)

  pub take-length-append : (xs ys : List A) → take (length xs) (xs ++ ys) ≡ xs
  take-length-append [] ys = refl
  take-length-append (x ∷ xs) ys = ap (◌∷◌ x) (take-length-append xs ys)

  -- Membership as a position in the list.
  pub data In (a : A) : List A → Type ℓ where
    here : {xs : List A} → In a (a ∷ xs)
    there : {x : A} {xs : List A} → In a xs → In a (x ∷ xs)

  pub In-cons : {a x : A} {xs : List A} → In a (x ∷ xs) → (a ≡ x) ⊎ In a xs
  In-cons here = inl refl
  In-cons (there i) = inr i

  pub In-head : {a x : A} {xs : List A} → a ≡ x → In a (x ∷ xs)
  In-head {x} {xs} e = subst (λ b. In b (x ∷ xs)) (sym e) here

  pub In-cons_mono :
      {a x : A} {xs ys : List A} → (In a xs → In a ys) → In a (x ∷ xs) → In a (x ∷ ys)
  In-cons_mono f i = elim (In-cons i) [ inl e ↦ In-head e | inr j ↦ there (f j) ]

  pub In-append_left : {a : A} {xs : List A} (ys : List A) → In a xs → In a (xs ++ ys)
  In-append_left ys here = here
  In-append_left ys (there i) = there (In-append_left ys i)

  pub In-append_right : {a : A} (xs : List A) {ys : List A} → In a ys → In a (xs ++ ys)
  In-append_right [] i = i
  In-append_right (x ∷ xs) i = there (In-append_right xs i)

  pub In-append : {a : A} (xs : List A) {ys : List A} → In a (xs ++ ys) → In a xs ⊎ In a ys
  In-append [] i = inr i
  In-append (x ∷ xs) here = inl here
  In-append (x ∷ xs) (there i) = elim (In-append xs i) [ inl j ↦ inl (there j) | inr j ↦ inr j ]

pub true-ne-false : ¬ (true ≡ false)
true-ne-false e = cc

-- What is kept is what passes the test.
pub In-keep {ℓ} :
    {A : Type ℓ} (p : A → Bool) (a : A) (xs : List A) → In a (keep p xs) ↔ (In a xs × (p a ≡ true))
In-keep p a [] = (λ i. elim i [ ], λ h. elim h.0 [ ])
In-keep p a (x ∷ xs) = elim (Bool-cases (p x)) [
  | inl e ↦ rw e (
    λ i. elim (In-cons i) [
      | inl same ↦ (In-head same, rw same e)
      | inr j ↦ let (k, q) = (In-keep p a xs).0 j in (there k, q)
    ],
    λ h. elim (In-cons h.0) [
      | inl same ↦ In-head same
      | inr j ↦ there ((In-keep p a xs).1 (j, h.1))
    ],
  )
  | inr e ↦ rw e (
    λ i. let (k, q) = (In-keep p a xs).0 i in (there k, q),
    λ h. elim (In-cons h.0) [
      | inl same ↦ absurd (true-ne-false (sym h.1 ∙ ap p same ∙ e))
      | inr j ↦ (In-keep p a xs).1 (j, h.1)
    ],
  )
]

module _ {ℓ κ} {A : Type ℓ} (P : A → Type κ) where
  abbrev pub All : List A → Type κ
  All [] = Unit
  All (x ∷ xs) = P x × All xs

  pub All-append : (xs ys : List A) → All xs → All ys → All (xs ++ ys)
  All-append [] ys h k = k
  All-append (x ∷ xs) ys h k = (h.0, All-append xs ys h.1 k)

  pub All-keep : (p : A → Bool) (xs : List A) → All xs → All (keep p xs)
  All-keep p [] h = tt
  All-keep p (x ∷ xs) h = elim (Bool-cases (p x)) [
    | inl e ↦ rw e (h.0, All-keep p xs h.1)
    | inr e ↦ rw e (All-keep p xs h.1)
  ]

  pub All-append_right : (xs ys : List A) → All (xs ++ ys) → All ys
  All-append_right [] ys h = h
  All-append_right (x ∷ xs) ys h = All-append_right xs ys h.1

  pub All-In : {a : A} {xs : List A} → All xs → In a xs → P a
  All-In h here = h.0
  All-In h (there i) = All-In h.1 i

  pub All-of_In : (xs : List A) → ((a : A) → In a xs → P a) → All xs
  All-of_In [] h = tt
  All-of_In (x ∷ xs) h = (h x here, All-of_In xs (λ a i. h a (there i)))

pub In-map {ℓ κ} :
    {A : Type ℓ} {B : Type κ} (f : A → B) {a : A} {xs : List A} → In a xs → In (f a) (map f xs)
In-map f here = here
In-map f (there i) = there (In-map f i)

pub All-map {ℓ κ μ} :
    {A : Type ℓ} {B : Type μ} (P : B → Type κ) (f : A → B) (xs : List A)
    → ((a : A) → In a xs → P (f a))
    → All P (map f xs)
All-map P f [] h = tt
All-map P f (x ∷ xs) h = (h x here, All-map P f xs (λ a i. h a (there i)))

pub length-map {ℓ κ} :
    {A : Type ℓ} {B : Type κ} (f : A → B) (xs : List A) → length (map f xs) ≡ length xs
length-map f [] = refl
length-map f (x ∷ xs) = ap suc (length-map f xs)

pub get_elem?-map {ℓ κ} :
    {A : Type ℓ} {B : Type κ} (f : A → B) (xs : List A) (i : ℕ) {a : A}
    → get_elem? xs i ≡ some a
    → get_elem? (map f xs) i ≡ some (f a)
get_elem?-map f [] i h = cc
get_elem?-map f (x ∷ xs) zero h = cc
get_elem?-map f (x ∷ xs) (suc i) h = get_elem?-map f xs i h

pub In-of_map {ℓ κ} :
    {A : Type ℓ} {B : Type κ} (f : A → B) {b : B} (xs : List A)
    → In b (map f xs)
    → (a : A) × In a xs × (f a ≡ b)
In-of_map f [] i = elim i [ ]
In-of_map f (x ∷ xs) i = elim (In-cons i) [
  | inl same ↦ (x, here, sym same)
  | inr j ↦ let (a, k, e) = In-of_map f xs j in (a, there k, e)
]
