-- ===== src/Base/Sorting.antt =====
-- `Array.prototype.sort` with a comparator, which is stable: insertion, where an item goes before the
-- items that it need not follow.
use Prim.Native.Nat.{ℕ, suc}
use mathlib.Core.Path.{◌≡◌, refl, sym, ap, subst, ◌∙◌}
use mathlib.Core.Logic.{◌↔◌, inl, inr}
use mathlib.Core.List.{List, [], ◌∷◌, ◌++◌}
use mathlib.Core.List.{Perm}
use mathlib.Core.List.Perm
use mathlib.Core.Bool.{Bool, true, false}
use native.Mathlib.Omega.{arith}
use otel_hive.Base.Tests.{leb, Bool-cases}
use otel_hive.Base.Lists.{
  length, keep, All, All-keep, All-append_right, All-In, In, In-cons, In-cons_mono, In-head, here,
  there,
}

module _ {ℓ} {A : Type ℓ} (le : A → A → Bool) where
  unfoldable pub insert : A → List A → List A
  insert x [] = x ∷ []
  insert x (y ∷ ys) = elim (le x y) [ true ↦ x ∷ y ∷ ys | false ↦ y ∷ insert x ys ]

  unfoldable pub sort : List A → List A
  unfolding insert
  sort [] = []
  sort (x ∷ xs) = insert x (sort xs)

  -- Each item may stand before all that follow it.
  abbrev pub IsSorted : List A → Type 0
  IsSorted [] = Unit
  IsSorted (x ∷ xs) = All (λ y. le x y ≡ true) xs × IsSorted xs

  insert-Perm : (x : A) (xs : List A) → Perm (insert x xs) (x ∷ xs)
  unfolding insert
  insert-Perm x [] = Perm.refl (x ∷ [])
  insert-Perm x (y ∷ ys) = elim (Bool-cases (le x y)) [
    | inl e ↦ rw (e, insert) (Perm.refl (x ∷ y ∷ ys))
    | inr e ↦ rw (e, insert) (Perm.trans (Perm.cons y (insert-Perm x ys)) (Perm.swap x y ys))
  ]

  pub sort-Perm : (xs : List A) → Perm (sort xs) xs
  unfolding sort
  sort-Perm [] = Perm.refl []
  sort-Perm (x ∷ xs) = Perm.trans (insert-Perm x (sort xs)) (Perm.cons x (sort-Perm xs))

  -- What a sort needs of its comparator.
  pub record IsOrder : Type ℓ where
    pub total : (x y : A) → le x y ≡ false → le y x ≡ true
    pub trans : (x y z : A) → le x y ≡ true → le y z ≡ true → le x z ≡ true

  module _ (order : IsOrder) where
    below_mono :
        (x y : A) (ys : List A)
        → le x y ≡ true
        → All (λ z. le y z ≡ true) ys
        → All (λ z. le x z ≡ true) ys
    below_mono x y [] h k = tt
    below_mono x y (z ∷ zs) h k = (order.trans x y z h k.0, below_mono x y zs h k.1)

    below-insert :
        (x y : A) (ys : List A)
        → le y x ≡ true
        → All (λ z. le y z ≡ true) ys
        → All (λ z. le y z ≡ true) (insert x ys)
    unfolding insert
    below-insert x y [] h k = (h, tt)
    below-insert x y (z ∷ zs) h k = elim (Bool-cases (le x z)) [
      | inl e ↦ rw (e, insert) (h, k)
      | inr e ↦ rw (e, insert) (k.0, below-insert x y zs h k.1)
    ]

    insert-IsSorted : (x : A) (xs : List A) → IsSorted xs → IsSorted (insert x xs)
    unfolding insert
    insert-IsSorted x [] h = (tt, tt)
    insert-IsSorted x (y ∷ ys) h = elim (Bool-cases (le x y)) [
      | inl e ↦ rw (e, insert) ((e, below_mono x y ys e h.0), h)
      | inr e ↦
          rw (e, insert) (below-insert x y ys (order.total x y e) h.0, insert-IsSorted x ys h.1)
    ]

    pub sort-IsSorted : (xs : List A) → IsSorted (sort xs)
    unfolding sort
    sort-IsSorted [] = tt
    sort-IsSorted (x ∷ xs) = insert-IsSorted x (sort xs) (sort-IsSorted xs)

-- What stands before in a sorted list may stand before all that comes after.
pub IsSorted-append {ℓ} :
    {A : Type ℓ} (le : A → A → Bool) (xs ys : List A)
    → IsSorted le (xs ++ ys)
    → All (λ x. All (λ y. le x y ≡ true) ys) xs × IsSorted le ys
IsSorted-append le [] ys h = (tt, h)
IsSorted-append le (x ∷ xs) ys h =
    let (below, sorted) = IsSorted-append le xs ys h.1 in
    ((All-append_right _ xs ys h.0, below), sorted)

pub keep-IsSorted {ℓ} :
    {A : Type ℓ} (le : A → A → Bool) (p : A → Bool) (xs : List A)
    → IsSorted le xs
    → IsSorted le (keep p xs)
keep-IsSorted le p [] h = tt
keep-IsSorted le p (x ∷ xs) h = elim (Bool-cases (p x)) [
  | inl e ↦ rw e (All-keep _ p xs h.0, keep-IsSorted le p xs h.1)
  | inr e ↦ rw e (keep-IsSorted le p xs h.1)
]

pub length-insert {ℓ} :
    {A : Type ℓ} (le : A → A → Bool) (x : A) (xs : List A)
    → length (insert le x xs) ≡ suc (length xs)
unfolding insert
length-insert le x [] = refl
length-insert le x (y ∷ ys) = elim (Bool-cases (le x y)) [
  | inl e ↦ rw (e, length, insert) refl
  | inr e ↦ rw (e, length, insert) (ap suc (length-insert le x ys))
]

pub length-sort {ℓ} :
    {A : Type ℓ} (le : A → A → Bool) (xs : List A) → length (sort le xs) ≡ length xs
unfolding sort
length-sort le [] = refl
length-sort le (x ∷ xs) = length-insert le x (sort le xs) ∙ ap suc (length-sort le xs)

insert-In {ℓ} :
    {A : Type ℓ} (le : A → A → Bool) (x : A) (xs : List A) {a : A}
    → In a (insert le x xs) ↔ In a (x ∷ xs)
unfolding insert
insert-In le x [] = (λ i. i, λ i. i)
insert-In le x (y ∷ ys) = elim (Bool-cases (le x y)) [
  | inl e ↦ rw (e, insert) (λ i. i, λ i. i)
  | inr e ↦
      rw (e, insert)
        (
          λ i. elim (In-cons i) [
            | inl same ↦ there (In-head same)
            | inr j ↦ elim (In-cons ((insert-In le x ys).0 j)) [
              | inl same ↦ In-head same
              | inr k ↦ there (there k)
            ]
          ],
          λ i. elim (In-cons i) [
            | inl same ↦ there ((insert-In le x ys).1 (In-head same))
            | inr j ↦ elim (In-cons j) [
              | inl same ↦ In-head same
              | inr k ↦ there ((insert-In le x ys).1 (there k))
            ]
          ],
        )
]

pub sort-In {ℓ} :
    {A : Type ℓ} (le : A → A → Bool) (xs : List A) {a : A} → In a (sort le xs) ↔ In a xs
unfolding sort
sort-In le [] = (λ i. i, λ i. i)
sort-In le (x ∷ xs) = (
  λ i. In-cons_mono (sort-In le xs).0 ((insert-In le x (sort le xs)).0 i),
  λ i. (insert-In le x (sort le xs)).1 (In-cons_mono (sort-In le xs).1 i),
)

-- The first of a sorted list may stand before any item.
pub sort-head {ℓ} :
    {A : Type ℓ} (le : A → A → Bool) (order : IsOrder le) (refl_le : (a : A) → le a a ≡ true)
    (xs : List A) {x : A} {rest : List A}
    → sort le xs ≡ x ∷ rest
    → In x xs × ((a : A) → In a xs → le x a ≡ true)
sort-head le order refl_le xs {x} {rest} e = (
  (sort-In le xs).0 (subst (In x) (sym e) here),
  λ a i.
      let sorted = subst (IsSorted le) e (sort-IsSorted le order xs) in
      elim (In-cons (subst (In a) e ((sort-In le xs).1 i))) [
        | inl same ↦ subst (λ b. le x b ≡ true) (sym same) (refl_le x)
        | inr j ↦ All-In _ sorted.0 j
      ],
)

-- The order of numbers that the items have, up or down.
pub up-IsOrder {ℓ} : {A : Type ℓ} (f : A → ℕ) → IsOrder (λ a b. leb (f a) (f b))
up-IsOrder f = record { total = λ x y h. ground arith; trans = λ x y z h k. ground arith }

pub down-IsOrder {ℓ} : {A : Type ℓ} (f : A → ℕ) → IsOrder (λ a b. leb (f b) (f a))
down-IsOrder f = record { total = λ x y h. ground arith; trans = λ x y z h k. ground arith }
