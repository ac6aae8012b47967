-- ===== src/Decorations/Tests.antt =====
-- Numbers behind the lines of a small configuration.
use otel_hive.Base.{◌≡◌, refl, true, none, some, [], ◌∷◌, ◌++◌, All}
use otel_hive.Text.{Text, text, text_eq, starts_with, trim, split}
use otel_hive.Decorations.{ComponentMetrics, Editor, edited}
use otel_hive.Decorations.Sums.{IsSum, edited-IsSum}

-- receivers:
--   otlp:
abbrev sample : Text
sample = text "receivers:" ++ (10 ∷ text "  otlp:")

abbrev sample_tail : Text
sample_tail = text "eceivers:" ++ (10 ∷ text "  otlp:")

abbrev row : ComponentMetrics
row = record {
  component_type = text "receiver";
  component_name = text "otlp";
  throughput = 7;
  errors = 1;
  received = some 7;
  accepted = none;
  refused = none;
  dropped = none;
  sent = none;
  send_failed = none;
}

abbrev editor : Editor
editor = record { has_model = true; parsed_components = []; shown = [] }

abbrev decorated : Editor
decorated = edited sample (some (row ∷ row ∷ [])) editor

two_rows : decorated.shown ≡ (record { line_number = 2; throughput = 14; errors = 2 }) ∷ []
unfolding edited text_eq starts_with trim split
two_rows = refl

-- The numbers of the old text stay when the text is emptied and the metrics go.
emptied : (edited [] (some []) decorated).shown ≡ decorated.shown
unfolding edited
emptied = refl

edited-IsSum_example :
    All (IsSum (split 10 sample) (row ∷ [])) (edited sample (some (row ∷ [])) editor).shown
edited-IsSum_example = edited-IsSum b'r' sample_tail row [] editor refl
