-- ===== src/Charts/Tests.antt =====
-- Two results of different times and series, and instances of the theorems.
use otel_hive.Base.{ℕ, ◌≡◌, refl, none, some, [], ◌∷◌}
use otel_hive.Text.{Text, text, text_eq}
use otel_hive.Charts.{QueryResult, number, series_keys, chart_data, resolved_chart_type, auto, line}
use otel_hive.Charts.Values.{value_at, IsLast, value_at-chart_data}

abbrev no_float : Text → ℕ
no_float v = 0

abbrev stamp : Text → Text
stamp t = t

abbrev first : QueryResult Text
first = record {
  timestamp = text "10:00";
  value = number 3;
  labels = some ((text "host", text "a") ∷ []);
}

abbrev second : QueryResult Text
second = record { timestamp = text "10:05"; value = number 4; labels = none }

-- The series of the second result is not drawn.
first_only : series_keys (chart_data no_float stamp (first ∷ second ∷ [])) ≡ text "host=a" ∷ []
unfolding chart_data text_eq
first_only = refl

two_points : resolved_chart_type auto (chart_data no_float stamp (first ∷ second ∷ [])) ≡ line
unfolding chart_data text_eq
two_points = refl

value_at-chart_data_example :
    IsLast no_float stamp
      (text "10:05")
      (text "value")
      (first ∷ second ∷ [])
      (value_at (text "10:05") (text "value") (chart_data no_float stamp (first ∷ second ∷ [])))
value_at-chart_data_example =
    value_at-chart_data no_float stamp (text "10:05") (text "value") (first ∷ second ∷ [])

charted :
    value_at (text "10:00") (text "host=a") (chart_data no_float stamp (first ∷ second ∷ []))
    ≡ some 3
unfolding value_at chart_data text_eq
charted = refl
