-- ===== src/Panel.antt =====
-- ui/src/components/configs/ConfigEditorSideBySide.tsx: the editor of a configuration beside its
-- graph. It runs both hooks of Editing on one text and shows badges and hovers from what they say.
pub mod Badges
pub mod Hover
mod Tests
use otel_hive.Base.{
  ℕ, zero, suc, ◌+◌, ◌/◌, ◌%◌, Bool, true, false, not, ◌&&◌, ◌||◌, Option, none, some, List, [],
  ◌∷◌, ◌++◌, map, length, keep, leb, ltb, ◌==◌, if◌then◌else◌,
}
use otel_hive.Text.{Text, text, decimal}
use otel_hive.Validation.Types.{
  Severity, error, warning, ValidationError, ValidationResult, ParsedData,
}
use otel_hive.Validation.Run.{Validator}
use otel_hive.Editing.{Load, edit, fire, Parser, parser_step, Marker, Checker, checker_step}

pub record Panel : Type 0 where
  pub parser : Parser ParsedData
  pub checker : Checker

-- What the browser does: a new text, or the end of the pause of one of the hooks.
pub data PanelEvent : Type 0 where
  change : Text → PanelEvent
  parser_fires checker_fires : PanelEvent

-- The state of both hooks before their first effect.
abbrev pub initial_parser : Text → Parser ParsedData
initial_parser value = record {
  content = value;
  timer = none;
  result = record { valid = true; data_ = none; error = none };
  is_parsing = false;
}

abbrev pub initial_checker : Text → Checker
initial_checker value = record {
  content = value;
  timer = none;
  result = record { valid = true; errors = [] };
  is_validating = false;
  markers = [];
}

module _ (load : Text → Load ParsedData) (validators : List Validator) (has_editor : Bool) where
  unfoldable pub panel_step : Panel → PanelEvent → Panel
  unfolding parser_step checker_step
  panel_step p (change value) = record {
    parser = parser_step load p.parser (edit value);
    checker = checker_step load validators has_editor p.checker (edit value);
  }
  panel_step p parser_fires = record p { parser = parser_step load p.parser fire }
  panel_step p checker_fires = record p {
    checker = checker_step load validators has_editor p.checker fire;
  }

  unfoldable pub panel_run : Panel → List PanelEvent → Panel
  unfolding panel_step
  panel_run p [] = p
  panel_run p (e ∷ es) = panel_run (panel_step p e) es

  -- The effects of both hooks run when the panel is mounted.
  unfoldable pub mounted : Text → Panel
  unfolding panel_step
  mounted value =
      panel_step (record { parser = initial_parser value; checker = initial_checker value })
        (change value)

abbrev pub is_severity : Severity → Severity → Bool
is_severity error error = true
is_severity warning warning = true
is_severity _ _ = false

-- `errors.filter((e) => e.severity === s).length`
abbrev pub count_of : Severity → List ValidationError → ℕ
count_of s errors = length (keep (λ (e : ValidationError). is_severity e.severity s) errors)

-- `errors.some((e) => e.severity === s)`
unfoldable pub has_severity : Severity → List ValidationError → Bool
has_severity s [] = false
has_severity s (e ∷ es) = is_severity e.severity s || has_severity s es

-- The badges above the editor.
pub data HeaderBadge : Type 0 where
  busy : (validating : Bool) → HeaderBadge
  parse_error : HeaderBadge
  issues : (severe : Bool) (label : Text) → HeaderBadge

-- `n error` or `n errors`, where there are some.
unfoldable pub counted : ℕ → Text → Text
unfolding decimal
counted n noun =
    if ltb 0 n then decimal n ++ (text " " ++ (noun ++ (if n == 1 then [] else text "s"))) else []

unfoldable pub issue_label : ℕ → ℕ → Text
unfolding counted
issue_label errors warnings =
    counted errors (text "error")
    ++ ((if ltb 0 errors && ltb 0 warnings then text ", " else [])
        ++ counted warnings (text "warning"))

-- `condition && badge`
abbrev pub shown_if {ℓ} : {A : Type ℓ} → Bool → A → List A
shown_if true a = a ∷ []
shown_if false a = []

abbrev pub present : Option Text → Bool
present none = false
present (some []) = false
present (some (c ∷ s)) = true

unfoldable pub header_badges : Panel → List HeaderBadge
unfolding has_severity issue_label
header_badges p =
    let is_parsing = p.parser.is_parsing in
    let is_validating = p.checker.is_validating in
    let errors = p.checker.result.errors in
    shown_if (is_parsing || is_validating) (busy is_validating)
    ++ (shown_if
          (not is_parsing
            && not is_validating
            && not p.parser.result.valid
            && present p.parser.result.error)
          parse_error
        ++ shown_if
            (not is_parsing && not is_validating && p.parser.result.valid && ltb 0 (length errors))
            (issues (has_severity error errors)
              (issue_label (count_of error errors) (count_of warning errors))))

-- The badges above the graph.
pub data Status : Type 0 where
  valid_status warnings_status invalid_status : Status

unfoldable pub status_of : Bool → ValidationResult → List Status
unfolding has_severity
status_of parsed result =
    shown_if (parsed && result.valid) valid_status
    ++ (shown_if
          (parsed
            && not result.valid
            && has_severity warning result.errors
            && not (has_severity error result.errors))
          warnings_status
        ++ shown_if (not parsed || (parsed && has_severity error result.errors)) invalid_status)

unfoldable pub status_badges : Panel → List Status
unfolding status_of
status_badges p = status_of p.parser.result.valid p.checker.result

-- `provideHover`: the markers that the position stands in.
abbrev pub is_hovered : ℕ → ℕ → Marker → Bool
is_hovered line column m =
    leb m.start_line line
    && leb line m.end_line
    && leb m.start_column column
    && leb column m.end_column

unfoldable pub hover_content : Marker → Text
hover_content m =
    text "**"
    ++ ((if m.severity == 8 then text "Error" else text "Warning") ++ (text "**: " ++ m.message))

unfoldable pub provide_hover : List Marker → ℕ → ℕ → Option (List Text)
unfolding hover_content
provide_hover markers line column = elim (keep (is_hovered line column) markers) [
  | [] ↦ none
  | m ∷ ms ↦ some (map hover_content (m ∷ ms))
]
