-- ===== src/Results/Tests.antt =====
-- Rows of a small table, and instances of the theorems on them.
use otel_hive.Base.{◌≡◌, refl, true, false, none, some, List, [], ◌∷◌, map}
use otel_hive.Text.{Text, text}
use otel_hive.Results.{
  other, Result, RowView, row_view, ResultsState, ResultsEvent, chart, table, set_active_view,
  toggle, new_results, has, results_run, results_table, metric_name,
}
use otel_hive.Results.Whole.{IsAnnounced, IsWhole, row_view-IsWhole}

abbrev shown : Text → Text
shown n = n

abbrev plain : Result Text Text
plain = record {
  type = text "logs";
  labels = some ((text "name", []) ∷ (text "host", text "a-long-name-of-a-host") ∷ []);
  data_ = none;
  value = other (text "up");
}

abbrev labelled : Result Text Text
labelled = record plain {
  labels = some (
      (text "__name__", text "cpu")
      ∷ (text "a", [])
      ∷ (text "b", [])
      ∷ (text "c", [])
      ∷ (text "d", [])
      ∷ []);
}

-- An empty name is passed over.
a_log : metric_name plain ≡ text "log"
unfolding metric_name
a_log = refl

cut_value :
    (row_view shown shown plain false).labels ≡ (text "host", text "a-long-name-of-a-hos...") ∷ []
unfolding row_view
cut_value = refl

one_more : (row_view shown shown labelled false).more ≡ some 1
unfolding row_view
one_more = refl

abbrev closed : ResultsState
closed = record { active_view = chart; expanded_rows = [] }

abbrev events : List (ResultsEvent Text Text)
events = toggle 0 ∷ set_active_view table ∷ new_results (plain ∷ []) ∷ []

-- A row that the results of an earlier query left expanded has no button to close it, where its own
-- result has nothing to expand.
no_button :
    elim (results_table shown shown (results_run closed events) (plain ∷ [])) [
      | none ↦ []
      | some rows ↦ map (λ (v : RowView). v.expand) rows
    ]
    ≡ none ∷ []
unfolding results_table results_run
no_button = refl

still_expanded : has 0 (results_run closed events).expanded_rows ≡ true
unfolding has results_run
still_expanded = refl

row_view-IsWhole_example :
    IsAnnounced shown shown labelled (row_view shown shown labelled false)
    × IsWhole shown shown labelled (row_view shown shown labelled true)
row_view-IsWhole_example = row_view-IsWhole shown shown labelled
