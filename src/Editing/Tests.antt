-- ===== src/Editing/Tests.antt =====
-- Instances of the theorems on the editor's hooks.
use otel_hive.Base.{refl, inl, true, false, none, some, List, [], ◌∷◌}
use otel_hive.Text.{Text, text}
use otel_hive.Validation.Types.{ParsedData, no_object}
use otel_hive.Editing.{
  Load, value, throwing, Event, edit, fire, Parser, Marker, Checker, checker_run,
}
use otel_hive.Editing.Current.{IsCurrent, checker_run-IsCurrent}

abbrev load_none : Text → Load ParsedData
load_none t = value no_object

abbrev load_failing : Text → Load ParsedData
load_failing t = throwing (some (text "bad indentation"))

abbrev old_marker : Marker
old_marker = record {
  severity = 8;
  start_line = 3;
  start_column = 1;
  end_line = 3;
  end_column = 5;
  message = text "old";
}

abbrev checker : Checker
checker = record {
  content = text "a: 1";
  timer = some (text "a: 1");
  result = record { valid = true; errors = [] };
  is_validating = true;
  markers = old_marker ∷ [];
}

abbrev edits : List Event
edits = fire ∷ edit (text "b:") ∷ edit (text "b: 2") ∷ fire ∷ []

checker_run-IsCurrent_example :
    IsCurrent load_none [] true (checker_run load_none [] true checker edits)
checker_run-IsCurrent_example =
    checker_run-IsCurrent load_none [] true checker edits (inl (refl, refl))

abbrev parser : Parser ParsedData
parser = record {
  content = [];
  timer = none;
  result = record { valid = true; data_ = none; error = none };
  is_parsing = false;
}
