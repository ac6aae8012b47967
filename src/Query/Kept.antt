-- ===== src/Query/Kept.antt =====
-- useLawrenceQL.ts: which saved queries a hook that is mounted anew shows.
use otel_hive.Base.{ℕ, ◌≡◌, ◌≢◌, Option, none, some, List, [], ◌∷◌}
use otel_hive.Text.{Text, text, decimal}
use otel_hive.Query.Saved.{
  QueryTemplate, Json, Store, get_item, saved_key, Action, save, delete, load,
}

-- A description that is not given is empty.
abbrev pub IsDescription : Option Text → Text → Type 0
IsDescription none t = t ≡ []
IsDescription (some d) t = t ≡ d

-- The query that is saved at a time under a name.
pub record IsNew (now : ℕ) (query name : Text) (description : Option Text) (q : QueryTemplate)
    : Type 0 where
  pub id : q.id ≡ decimal now
  pub named : q.name ≡ name
  pub described : IsDescription description q.description
  pub queried : q.query ≡ query
  pub category : q.category ≡ text "saved"

-- No action deletes the query.
abbrev pub Remains : QueryTemplate → List Action → Type 0
Remains q [] = Unit
Remains q (save now query name description ∷ rest) = Remains q rest
Remains q (delete id ∷ rest) = (q.id ≢ id) × Remains q rest

-- One of the actions saves the query, and none after it deletes it.
pub data IsSaved (q : QueryTemplate) : List Action → Type 0 where
  at_once :
      {now : ℕ} {query name : Text} {description : Option Text} {rest : List Action}
      → IsNew now query name description q
      → Remains q rest
      → IsSaved q (save now query name description ∷ rest)
  later : {a : Action} {rest : List Action} → IsSaved q rest → IsSaved q (a ∷ rest)

module _ (json : Json) (q : QueryTemplate) where
  -- The storage holds what the hook shows.
  abbrev pub InSync : Store → Type 0
  InSync s = load json (get_item s.storage saved_key) ≡ s.saved_queries
