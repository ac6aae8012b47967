-- ===== src/Query/Saved.antt =====
-- useLawrenceQL.ts, `useSavedQueries`: the saved queries and their copy in the local storage. JSON
-- is a parameter: `stringify` and `parse` with the laws that the hook relies on.
use otel_hive.Base.{ℕ, ◌≡◌, ◌≢◌, not, Option, none, some, List, [], ◌∷◌, ◌++◌, keep, if◌then◌else◌}
use otel_hive.Text.{Text, text, truthy, text_eq, decimal}

pub record QueryTemplate : Type 0 where
  pub id : Text
  pub name : Text
  pub description : Text
  pub query : Text
  pub category : Text

-- The part of JSON that the hook uses. A list is never written as the empty text, and reading gives
-- back what was written.
pub record Json : Type 0 where
  pub stringify : List QueryTemplate → Text
  pub parse : Text → List QueryTemplate
  pub parse-stringify : (qs : List QueryTemplate) → parse (stringify qs) ≡ qs
  pub stringify-ne-nil : (qs : List QueryTemplate) → stringify qs ≢ []

-- The hook's state, and the local storage by its keys.
pub record Store : Type 0 where
  pub saved_queries : List QueryTemplate
  pub storage : List (Text × Text)

unfoldable pub get_item : List (Text × Text) → Text → Option Text
unfolding text_eq
get_item [] key = none
get_item ((k, v) ∷ items) key = if text_eq k key then some v else get_item items key

unfoldable pub set_item : Text → Text → List (Text × Text) → List (Text × Text)
unfolding text_eq
set_item key value [] = (key, value) ∷ []
set_item key value ((k, v) ∷ items) =
    if text_eq k key then (k, value) ∷ items else (k, v) ∷ set_item key value items

abbrev pub saved_key : Text
saved_key = text "lawrence-ql-saved-queries"

-- `description || ""`
abbrev description_of : Option Text → Text
description_of none = []
description_of (some d) = d

pub data Action : Type 0 where
  save : (now : ℕ) (query name : Text) → Option Text → Action
  delete : Text → Action

abbrev pub new_query : ℕ → (query name : Text) → Option Text → QueryTemplate
new_query now query name description = record {
  id = decimal now;
  name = name;
  description = description_of description;
  query = query;
  category = text "saved";
}

abbrev pub set_saved_queries : List QueryTemplate → Store → Store
set_saved_queries updated s = record s { saved_queries = updated }

-- `updated`, for each of the two callbacks.
unfoldable pub updated : List QueryTemplate → Action → List QueryTemplate
unfolding decimal text_eq
updated qs (save now query name description) = qs ++ (new_query now query name description ∷ [])
updated qs (delete id) = keep (λ q. not (text_eq q.id id)) qs

module _ (json : Json) where
  -- The state of a hook that is mounted anew.
  unfoldable pub load : Option Text → List QueryTemplate
  load storage = elim (truthy storage) [ none ↦ [] | some t ↦ json.parse t ]

  unfoldable pub store_saved : List QueryTemplate → Store → Store
  unfolding set_item
  store_saved qs s = record s { storage = set_item saved_key (json.stringify qs) s.storage }

  -- The state is set, and then the storage.
  unfoldable pub act : Store → Action → Store
  unfolding updated store_saved
  act s a = let qs = updated s.saved_queries a in store_saved qs (set_saved_queries qs s)

  unfoldable pub act_all : Store → List Action → Store
  unfolding act
  act_all s [] = s
  act_all s (a ∷ rest) = act_all (act s a) rest
