-- ===== src/Query/Tests.antt =====
-- Runs of the query editor, a stand-in for JSON, and instances of the theorems.
use otel_hive.Base.{
  ℕ, zero, suc, ◌≡◌, ◌≢◌, refl, ap, true, false, none, some, List, [], ◌∷◌, ◌++◌, length, take,
  drop, take-length-append,
}
use otel_hive.Text.{Text, text, text_eq, decimal, trim}
use otel_hive.Query.{Editor, execute, answered, run}
use otel_hive.Text.Laws.{ne-of_text_eq}
use otel_hive.Query.Kept.{IsNew, IsSaved, later, at_once}
use otel_hive.Query.Saved.{QueryTemplate, Json, Store, Action, save, delete}

abbrev empty_editor : Editor ℕ
empty_editor = record {
  query = text "metrics";
  is_executing = false;
  results = none;
  error = none;
  history = [];
  pending = [];
}

abbrev read : ℕ → ℕ
read r = r

-- Two queries are sent and the first is answered: the editor shows no query as running, although
-- the second one is.
hidden_query :
    let after =
      run read read empty_editor
        (execute none ∷ execute (some (text "logs")) ∷ answered 0 5 7 ∷ []) in
    (after.is_executing ≡ false) × (after.pending ≡ text "logs" ∷ [])
unfolding run trim
hidden_query = (refl, refl)

abbrev waiting : Editor ℕ
waiting = record empty_editor { is_executing = true; pending = text "metrics" ∷ [] }

-- A stand-in for JSON: each text after its length, the list after its own.
abbrev put_text : Text → Text → Text
put_text t rest = length t ∷ t ++ rest

abbrev take_text : Text → Text
take_text [] = []
take_text (n ∷ s) = take n s

abbrev drop_text : Text → Text
drop_text [] = []
drop_text (n ∷ s) = drop n s

drop-length-append : (s t : Text) → drop (length s) (s ++ t) ≡ t
drop-length-append [] t = refl
drop-length-append (c ∷ s) t = drop-length-append s t

abbrev put_query : QueryTemplate → Text → Text
put_query q rest =
    put_text q.id
      (put_text q.name (put_text q.description (put_text q.query (put_text q.category rest))))

abbrev take_query : Text → QueryTemplate
take_query s = record {
  id = take_text s;
  name = take_text (drop_text s);
  description = take_text (drop_text (drop_text s));
  query = take_text (drop_text (drop_text (drop_text s)));
  category = take_text (drop_text (drop_text (drop_text (drop_text s))));
}

abbrev drop_query : Text → Text
drop_query s = drop_text (drop_text (drop_text (drop_text (drop_text s))))

put_queries : List QueryTemplate → Text
put_queries [] = []
put_queries (q ∷ qs) = put_query q (put_queries qs)

take_queries : ℕ → Text → List QueryTemplate
take_queries zero s = []
take_queries (suc n) s = take_query s ∷ take_queries n (drop_query s)

abbrev write : List QueryTemplate → Text
write qs = length qs ∷ put_queries qs

abbrev read_back : Text → List QueryTemplate
read_back [] = []
read_back (n ∷ s) = take_queries n s

take_put : (q : QueryTemplate) (rest : Text) → take_query (put_query q rest) ≡ q
take_put q rest = simp (drop-length-append, take-length-append)

drop_put : (q : QueryTemplate) (rest : Text) → drop_query (put_query q rest) ≡ rest
drop_put q rest = simp (drop-length-append)

read_back-write : (qs : List QueryTemplate) → read_back (write qs) ≡ qs
unfolding put_queries take_queries
read_back-write [] = refl
read_back-write (q ∷ qs) =
    rw (take_put q (put_queries qs), drop_put q (put_queries qs)) (ap (◌∷◌ q) (read_back-write qs))

write-ne-nil : (qs : List QueryTemplate) → write qs ≢ []
write-ne-nil qs e = cc

abbrev stand_in : Json
stand_in = record {
  stringify = write;
  parse = read_back;
  parse-stringify = read_back-write;
  stringify-ne-nil = write-ne-nil;
}

abbrev no_queries : Store
no_queries = record { saved_queries = []; storage = [] }

abbrev errors_saved : Action
errors_saved = save 17 (text "logs") (text "errors") none

abbrev errors : QueryTemplate
errors = record {
  id = text "17";
  name = text "errors";
  description = [];
  query = text "logs";
  category = text "saved";
}

errors-IsNew : IsNew 17 (text "logs") (text "errors") none errors
unfolding decimal
errors-IsNew = record { id = refl; named = refl; described = refl; queried = refl; category = refl }

abbrev actions : List Action
actions = delete (text "17") ∷ errors_saved ∷ delete (text "9") ∷ []

errors_shown : IsSaved errors actions
unfolding text_eq
errors_shown = later (at_once errors-IsNew (ne-of_text_eq (text "17") (text "9") refl, tt))
