-- ===== src/Panel/Tests.antt =====
-- Labels of the badge above the editor, and instances of the theorems on the panel.
use otel_hive.Base.{◌≡◌, ◌&&◌, refl, true, none, some, [], ◌∷◌}
use otel_hive.Text.{Text, text}
use otel_hive.Validation.Types.{ValidationError, error, ParsedData}
use otel_hive.Editing.{Load, throwing}
use otel_hive.Panel.{
  Panel, parser_fires, checker_fires, panel_run, mounted, issue_label, status_badges,
}
use otel_hive.Panel.Badges.{verdict_badge, one_status}

one_of_each : issue_label 1 2 ≡ text "1 error, 2 warnings"
unfolding issue_label
one_of_each = refl

warnings_only : issue_label 0 1 ≡ text "1 warning"
unfolding issue_label
warnings_only = refl

abbrev load_failing : Text → Load ParsedData
load_failing t = throwing (some (text "bad indentation"))

abbrev problem : ValidationError
problem = record {
  message = text "unknown receiver";
  severity = error;
  line = 3;
  column = 5;
  end_line = none;
  end_column = none;
  path = none;
}

abbrev after : Panel
after =
    panel_run load_failing [] true (mounted load_failing [] true (text "a: b: c"))
      (parser_fires ∷ checker_fires ∷ [])

one_status_example :
    status_badges after
    ≡ verdict_badge (after.parser.result.valid && after.checker.result.valid) ∷ []
one_status_example =
    one_status load_failing [] true (text "a: b: c") (parser_fires ∷ checker_fires ∷ [])
