-- ===== src/Grouping.antt =====
-- A `Map` from strings to arrays that a loop fills: for each item, `if (!map.has(key)) map.set(key, [])`
-- and `map.get(key).push(item)`. A map keeps its keys in the order in which they came.
pub mod Laws
use otel_hive.Base.{Bool, true, false, Option, none, some, List, [], ◌∷◌, ◌++◌, if◌then◌else◌}
use otel_hive.Text.{Text, text_eq}

module _ {ℓ κ} (B : Type κ) (A : Type ℓ) where
  -- An entry: `tag` is what the entry is created with beside its array.
  pub record Group : Type (ℓ ⊔ κ) where
    pub key : Text
    pub tag : B
    pub items : List A

module _ {ℓ κ} {B : Type κ} {A : Type ℓ} where
  -- `has`, `set` and `push` for an item with its key; an item with none is passed over.
  unfoldable pub push : Option (Text × B) → A → List (Group B A) → List (Group B A)
  unfolding text_eq
  push none a gs = gs
  push (some (k, b)) a [] = (record { key = k; tag = b; items = a ∷ [] }) ∷ []
  push (some (k, b)) a (g ∷ gs) =
      if text_eq g.key k
      then (record g { items = g.items ++ (a ∷ []) }) ∷ gs
      else g ∷ push (some (k, b)) a gs

  -- The loop, from a map that is filled already.
  unfoldable pub group_into : (A → Option (Text × B)) → List A → List (Group B A) → List (Group B A)
  unfolding push
  group_into key_of [] gs = gs
  group_into key_of (a ∷ xs) gs = group_into key_of xs (push (key_of a) a gs)

  unfoldable pub group : (A → Option (Text × B)) → List A → List (Group B A)
  unfolding group_into
  group key_of xs = group_into key_of xs []

  -- `map.get(key)`, with no items where there is no such key.
  unfoldable pub get : Text → List (Group B A) → List A
  unfolding text_eq
  get k [] = []
  get k (g ∷ gs) = if text_eq g.key k then g.items else get k gs

-- The item goes to the entry of that key.
abbrev pub has_key {κ} : {B : Type κ} → Text → Option (Text × B) → Bool
has_key k none = false
has_key k (some (j, b)) = text_eq j k
