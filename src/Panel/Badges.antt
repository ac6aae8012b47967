-- ===== src/Panel/Badges.antt =====
-- ConfigEditorSideBySide.tsx: the badges agree with the text.
use otel_hive.Base.{
  suc, ◌+◌, ◌≡◌, refl, sym, Bool, true, false, not, ◌&&◌, ◌||◌, List, [], ◌∷◌, ◌++◌, length, keep,
  arith, if◌then◌else◌,
}
use otel_hive.Text.{Text}
use otel_hive.Validation.Types.{
  Severity, error, warning, ValidationError, ValidationResult, ParsedData,
}
use otel_hive.Validation.Run.{Validator, no_severe}
use otel_hive.Editing.{Load, is_blank, edit, fire}
use otel_hive.Editing.Current.{verdict}
use otel_hive.Editing.Consistent.{
  IsConsistent, verdict-IsConsistent, checker_step-IsConsistent, checker_fired, accepted,
  parser_fired,
}
use otel_hive.Panel.{
  Panel, PanelEvent, change, parser_fires, checker_fires, panel_step, panel_run, mounted, count_of,
  initial_checker, shown_if, has_severity, is_severity, Status, valid_status, warnings_status,
  invalid_status, status_of, status_badges,
}

has_severity-error : (es : List ValidationError) → has_severity error es ≡ not (no_severe es)
unfolding has_severity no_severe
has_severity-error [] = refl
has_severity-error (e ∷ es) = by_severity e.severity (has_severity-error es)
  where
    by_severity :
        (s : Severity)
        → has_severity error es ≡ not (no_severe es)
        → (is_severity s error || has_severity error es)
          ≡ not (elim s [ error ↦ false | warning ↦ no_severe es ])
    by_severity error h = refl
    by_severity warning h = h

-- The one badge there is.
abbrev pub verdict_badge : Bool → Status
verdict_badge true = valid_status
verdict_badge false = invalid_status

badges :
    (parsed valid warns : Bool)
    → (shown_if (parsed && valid) valid_status
        ++ (shown_if (parsed && not valid && warns && not (not valid)) warnings_status
            ++ shown_if (not parsed || (parsed && not valid)) invalid_status))
      ≡ verdict_badge (parsed && valid) ∷ []
badges true true warns = refl
badges true false true = refl
badges true false false = refl
badges false true warns = refl
badges false false warns = refl

status_of-eq :
    (parsed : Bool) (r : ValidationResult)
    → IsConsistent r
    → status_of parsed r ≡ verdict_badge (parsed && r.valid) ∷ []
unfolding status_of
status_of-eq parsed r h =
    rw (has_severity-error r.errors, sym h) (badges parsed r.valid (has_severity warning r.errors))

module _ (load : Text → Load ParsedData) (validators : List Validator) (has_editor : Bool) where
  panel_run-IsConsistent :
      (p : Panel) (es : List PanelEvent)
      → IsConsistent p.checker.result
      → IsConsistent (panel_run load validators has_editor p es).checker.result
  unfolding panel_run panel_step
  panel_run-IsConsistent p [] h = h
  panel_run-IsConsistent p (change content ∷ es) h =
      panel_run-IsConsistent (panel_step load validators has_editor p (change content)) es
        (checker_step-IsConsistent load validators has_editor p.checker (edit content) h)
  panel_run-IsConsistent p (parser_fires ∷ es) h =
      panel_run-IsConsistent (panel_step load validators has_editor p parser_fires) es h
  panel_run-IsConsistent p (checker_fires ∷ es) h =
      panel_run-IsConsistent (panel_step load validators has_editor p checker_fires) es
        (checker_step-IsConsistent load validators has_editor p.checker fire h)

  -- In every order of edits and timers after the panel is opened there is exactly one badge above the
  -- graph, that the text is valid or that it is invalid: the badge for a text with warnings only is
  -- never shown.
  pub one_status :
      (content : Text) (es : List PanelEvent)
      → let p =
          panel_run load validators has_editor (mounted load validators has_editor content) es in
        status_badges p ≡ verdict_badge (p.parser.result.valid && p.checker.result.valid) ∷ []
  unfolding mounted panel_step status_badges
  one_status content es =
      let p =
        panel_run load validators has_editor (mounted load validators has_editor content) es in
      status_of-eq p.parser.result.valid p.checker.result (
        panel_run-IsConsistent (mounted load validators has_editor content) es (
          checker_step-IsConsistent load validators has_editor (initial_checker content)
            (edit content) no_errors))
    where
      no_errors : IsConsistent (initial_checker content).result
      no_errors = refl

  -- After an edit and the pauses of both hooks, the badge says that the text is valid where it is blank,
  -- or where it loads and its validation has no error, and that it is invalid otherwise.
  pub fired_status :
      (p : Panel) (content : Text)
      → status_badges (
          panel_run load validators has_editor p
            (change content ∷ parser_fires ∷ checker_fires ∷ []))
        ≡ verdict_badge (
            accepted load content (is_blank content)
            && (verdict load validators has_editor content (is_blank content)).valid)
          ∷ []
  unfolding panel_run panel_step status_badges
  fired_status p content =
      rw
        (
          parser_fired load content p.parser,
          checker_fired load validators has_editor content p.checker,
        )
        (status_of-eq _ (verdict load validators has_editor content (is_blank content))
          (verdict-IsConsistent load validators has_editor content (is_blank content)))

-- The two counts of the badge above the editor add up to the number of all errors shown.
pub count_of-sum : (es : List ValidationError) → count_of error es + count_of warning es ≡ length es
count_of-sum [] = refl
count_of-sum (e ∷ es) = by_severity e.severity (count_of-sum es)
  where
    by_severity :
        (s : Severity)
        → count_of error es + count_of warning es ≡ length es
        → length (
              if is_severity s error
              then e ∷ keep (λ (x : ValidationError). is_severity x.severity error) es
              else keep (λ (x : ValidationError). is_severity x.severity error) es)
            + length (
                if is_severity s warning
                then e ∷ keep (λ (x : ValidationError). is_severity x.severity warning) es
                else keep (λ (x : ValidationError). is_severity x.severity warning) es)
          ≡ suc (length es)
    by_severity error h = omega (arith, h)
    by_severity warning h = omega (arith, h)
