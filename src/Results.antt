-- ===== src/Results.antt =====
-- ui/src/components/lawrence-ql/QueryResults.tsx: the table of a query's results, with rows that can
-- be expanded. `to_locale` is the browser's `toLocaleString` of numbers, and `stringify` is
-- `JSON.stringify`.
pub mod Toggled
pub mod Whole
mod Tests
use otel_hive.Base.{
  ℕ, suc, ◌-◌, Bool, true, false, not, ◌&&◌, ◌||◌, Option, none, some, List, [], ◌∷◌, ◌++◌, map,
  take, keep, length, ltb, ◌==◌, if◌then◌else◌,
}
use otel_hive.Text.{Text, text, text_eq, truthy}
use otel_hive.Agents.{Labels, label, or_no_labels}

-- A value by its `typeof`; of the other types only the text that `String` makes of it is used.
pub data CellValue (N O : Type 0) : Type 0 where
  number : N → CellValue N O
  object : O → CellValue N O
  other : Text → CellValue N O

-- `data`, of which the name is read.
pub record ResultData : Type 0 where
  pub name : Option Text

pub record Result (N O : Type 0) : Type 0 where
  pub type : Text
  pub labels : Option Labels
  pub data_ : Option ResultData
  pub value : CellValue N O

-- `a || b`
abbrev pub or_next : Option Text → Text → Text
or_next none next = next
or_next (some s) next = s

abbrev pub data_name : Option ResultData → Option Text
data_name none = none
data_name (some d) = d.name

abbrev pub type_name : Text → Text
type_name type =
    if text_eq type (text "metrics")
    then text "metric"
    else if text_eq type (text "logs")
    then text "log"
    else text "trace"

-- The name of a result, or what it is.
unfoldable pub metric_name : {N O : Type 0} → Result N O → Text
unfolding label text_eq
metric_name r = or_next (truthy (label (or_no_labels r.labels) (text "__name__"))) (
    or_next (truthy (label (or_no_labels r.labels) (text "name")))
      (or_next (truthy (data_name r.data_)) (type_name r.type)))

unfoldable pub is_other : Text × Text → Bool
unfolding text_eq
is_other (key, value) = not (text_eq key (text "__name__")) && not (text_eq key (text "name"))

unfoldable pub other_labels : {N O : Type 0} → Result N O → Labels
unfolding is_other
other_labels r = keep is_other (or_no_labels r.labels)

pub data BadgeVariant : Type 0 where
  default secondary destructive outline : BadgeVariant

unfoldable pub type_badge_variant : Text → BadgeVariant
unfolding text_eq
type_badge_variant type =
    if text_eq type (text "metrics")
    then default
    else if text_eq type (text "logs")
    then secondary
    else outline

-- The value of a label as its badge shows it.
abbrev pub short_value : Text → Text
short_value value = if ltb 20 (length value) then take 20 value ++ text "..." else value

abbrev pub label_badge : Text × Text → Text × Text
label_badge (key, value) = (key, short_value value)

-- What stands below a row that is expanded.
pub record RowDetails : Type 0 where
  pub full_value : Option Text
  pub all_labels : Labels
  pub additional_data : Bool

-- `expand` is the button, if there is one, by whether it shows the row as expanded.
pub record RowView : Type 0 where
  pub expand : Option Bool
  pub badge : BadgeVariant
  pub name : Text
  pub value : Text
  pub labels : Labels
  pub more : Option ℕ
  pub details : Option RowDetails

abbrev pub has_data : Option ResultData → Bool
has_data none = false
has_data (some d) = true

module _ {N O : Type 0} (to_locale : N → Text) (stringify : O → Text) where
  abbrev pub format_value : CellValue N O → Text
  format_value (number n) = to_locale n
  format_value (object o) = stringify o
  format_value (other s) = s

  abbrev pub has_long_value : Result N O → Bool
  has_long_value r = ltb 50 (length (format_value r.value))

  unfoldable pub should_show_expand : Result N O → Bool
  unfolding other_labels
  should_show_expand r = has_long_value r || ltb 3 (length (other_labels r)) || has_data r.data_

  abbrev pub row_details : Result N O → RowDetails
  row_details r = record {
    full_value = if has_long_value r then some (format_value r.value) else none;
    all_labels = other_labels r;
    additional_data = has_data r.data_;
  }

  unfoldable pub row_view : Result N O → (is_expanded : Bool) → RowView
  unfolding should_show_expand metric_name type_badge_variant
  row_view r is_expanded = record {
    expand = if should_show_expand r then some is_expanded else none;
    badge = type_badge_variant r.type;
    name = metric_name r;
    value = format_value r.value;
    labels = map label_badge (if is_expanded then other_labels r else take 3 (other_labels r));
    more =
        if not is_expanded && ltb 3 (length (other_labels r))
        then some (length (other_labels r) - 3)
        else none;
    details = if is_expanded then some (row_details r) else none;
  }

pub data ActiveView : Type 0 where
  chart table : ActiveView

-- `expanded_rows` is a Set.
pub record ResultsState : Type 0 where
  pub active_view : ActiveView
  pub expanded_rows : List ℕ

unfoldable pub has : ℕ → List ℕ → Bool
has i [] = false
has i (j ∷ js) = (j == i) || has i js

abbrev pub remove : ℕ → List ℕ → List ℕ
remove i js = keep (λ j. not (j == i)) js

unfoldable pub toggle_row_expansion : ℕ → List ℕ → List ℕ
unfolding has
toggle_row_expansion idx rows = if has idx rows then remove idx rows else rows ++ (idx ∷ [])

-- The buttons, and the results of another query, which leave the state as it is.
pub data ResultsEvent (N O : Type 0) : Type 0 where
  set_active_view : ActiveView → ResultsEvent N O
  toggle : ℕ → ResultsEvent N O
  new_results : List (Result N O) → ResultsEvent N O

unfoldable pub results_step : {N O : Type 0} → ResultsState → ResultsEvent N O → ResultsState
unfolding toggle_row_expansion
results_step s (set_active_view view) = record s { active_view = view }
results_step s (toggle idx) = record s { expanded_rows = toggle_row_expansion idx s.expanded_rows }
results_step s (new_results results) = s

unfoldable pub results_run : {N O : Type 0} → ResultsState → List (ResultsEvent N O) → ResultsState
unfolding results_step
results_run s [] = s
results_run s (e ∷ es) = results_run (results_step s e) es

unfoldable pub can_show_chart : {N O : Type 0} → List (Result N O) → Bool
unfolding text_eq
can_show_chart [] = false
can_show_chart (r ∷ rs) = text_eq r.type (text "metrics")

-- What stands below the numbers of the query: the chart, where there can be one, or the table.
abbrev pub shown_view : Bool → ActiveView → ActiveView
shown_view false view = table
shown_view true view = view

abbrev pub rows_from :
    {N O : Type 0} → (Result N O → Bool → RowView) → List ℕ → ℕ → List (Result N O) → List RowView
rows_from view expanded i [] = []
rows_from view expanded i (r ∷ rs) = view r (has i expanded) ∷ rows_from view expanded (suc i) rs

-- The rows of the table, with `none` where the chart stands in its place.
unfoldable pub results_table :
    {N O : Type 0}
    → (N → Text)
    → (O → Text)
    → ResultsState
    → List (Result N O)
    → Option (List RowView)
unfolding row_view can_show_chart has
results_table to_locale stringify s results =
    elim (shown_view (can_show_chart results) s.active_view) [
      | chart ↦ none
      | table ↦ some (rows_from (row_view to_locale stringify) s.expanded_rows 0 results)
    ]
