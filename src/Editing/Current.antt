-- ===== src/Editing/Current.antt =====
-- What the hooks of the configuration editor show belongs to the text as it stands.
use otel_hive.Base.{
  ◌≡◌, refl, sym, ap, ◌∙◌, ◌⊎◌, inl, inr, Bool, true, false, Option, none, some, List, [], ◌∷◌, map,
  Bool-cases,
}
use otel_hive.Text.{Text, text}
use otel_hive.Validation.Types.{ValidationResult, error, ParsedData}
use otel_hive.Validation.Run.{Validator, validate_yaml_config}
use otel_hive.Editing.{
  Load, value, throwing, message_or, is_blank, Event, edit, fire, Parser, parse_yaml, parse_fire,
  parser_step, parser_run, Checker, marker, check_loaded, perform_validation, check_fire,
  checker_step, checker_run,
}

module _ (load : Text → Load ParsedData) (validators : List Validator) (has_editor : Bool) where
  -- What there is to say about a text.
  abbrev pub loaded_verdict : Text → Load ParsedData → ValidationResult
  loaded_verdict content (value d) = validate_yaml_config content d validators
  loaded_verdict content (throwing e) = record {
    valid = false;
    errors =
        record {
          message = message_or (text "YAML parse error") e;
          severity = error;
          line = 1;
          column = 1;
          end_line = none;
          end_column = none;
          path = none;
        }
        ∷ [];
  }

  abbrev pub verdict : Text → Bool → ValidationResult
  verdict content true = record { valid = true; errors = [] }
  verdict content false = loaded_verdict content (load content)

  -- Either the text as it stands is going to be validated, and the hook says so, or the result shown
  -- is that of the text.
  abbrev pub IsCurrent : Checker → Type 0
  IsCurrent s =
      ((s.timer ≡ some s.content) × (s.is_validating ≡ true))
      ⊎ ((s.timer ≡ none)
          × (s.is_validating ≡ false)
          × (s.result ≡ verdict s.content (is_blank s.content)))

  check_loaded-lem :
      (content : Text) (l : Load ParsedData) (s : Checker)
      → let t = check_loaded load validators has_editor content l s in
        (t.timer ≡ s.timer)
        × (t.content ≡ s.content)
        × (t.is_validating ≡ false)
        × (t.result ≡ loaded_verdict content l)
  unfolding check_loaded
  check_loaded-lem content (value d) s = (refl, refl, refl, refl)
  check_loaded-lem content (throwing e) s = (refl, refl, refl, refl)

  pub perform_validation-lem :
      (content : Text) (blank : Bool) (s : Checker)
      → let t = perform_validation load validators has_editor content blank s in
        (t.timer ≡ s.timer)
        × (t.content ≡ s.content)
        × (t.is_validating ≡ false)
        × (t.result ≡ verdict content blank)
  unfolding perform_validation
  perform_validation-lem content true s = (refl, refl, refl, refl)
  perform_validation-lem content false s = check_loaded-lem content (load content) s

  check_fire-IsCurrent :
      (timer : Option Text) (s : Checker)
      → s.timer ≡ timer
      → IsCurrent s
      → IsCurrent (check_fire load validators has_editor timer s)
  unfolding check_fire
  check_fire-IsCurrent none s e h = h
  check_fire-IsCurrent (some content) s e (inr (f, g, k)) = cc
  check_fire-IsCurrent (some content) s e (inl (f, g)) =
      let same : content ≡ s.content = cc in
      let (t, c, v, r) =
        perform_validation-lem content (is_blank content) (record s { timer = none }) in
      inr (t, v, r ∙ ap (λ x. verdict x (is_blank x)) (same ∙ sym c))

  step-IsCurrent :
      (s : Checker) (e : Event)
      → IsCurrent s
      → IsCurrent (checker_step load validators has_editor s e)
  unfolding checker_step
  step-IsCurrent s (edit content) h = inl (refl, refl)
  step-IsCurrent s fire h = check_fire-IsCurrent s.timer s refl h

  -- In every order of edits and timers, either the text as it stands is going to be validated, and
  -- the hook says so, or the result shown is that of the text and not of an older one, when this
  -- holds at first.
  pub checker_run-IsCurrent :
      (s : Checker) (es : List Event)
      → IsCurrent s
      → IsCurrent (checker_run load validators has_editor s es)
  unfolding checker_run
  checker_run-IsCurrent s [] h = h
  checker_run-IsCurrent s (e ∷ es) h =
      checker_run-IsCurrent (checker_step load validators has_editor s e) es (step-IsCurrent s e h)

  -- Where the editor is there and a text loads, the markers of the editor become those of the errors
  -- shown.
  pub fire-markers :
      (s : Checker) (content : Text) (d : ParsedData)
      → has_editor ≡ true
      → s.timer ≡ some content
      → is_blank content ≡ false
      → load content ≡ value d
      → let after = checker_step load validators has_editor s fire in
        after.markers ≡ map marker after.result.errors
  unfolding checker_step check_fire perform_validation check_loaded
  fire-markers s content d h t b l = rw (t, b, l, h) refl

  -- A text that is blank or does not load leaves the markers of an older text in the editor.
  pub fire_stale_markers :
      (s : Checker) (content : Text) (e : Option Text)
      → s.timer ≡ some content
      → (is_blank content ≡ true) ⊎ (load content ≡ throwing e)
      → (checker_step load validators has_editor s fire).markers ≡ s.markers
  unfolding checker_step check_fire perform_validation check_loaded
  fire_stale_markers s content e t (inl b) = rw (t, b) refl
  fire_stale_markers s content e t (inr l) = elim (Bool-cases (is_blank content)) [
    | inl b ↦ rw (t, b) refl
    | inr b ↦ rw (t, b, l) refl
  ]

module _ {D : Type 0} (load : Text → Load D) where
  parse_yaml-is_parsing :
      (content : Text) (blank : Bool) (s : Parser D)
      → s.is_parsing ≡ true
      → (parse_yaml load content blank s).is_parsing ≡ blank
  unfolding parse_yaml
  parse_yaml-is_parsing content true s h = h
  parse_yaml-is_parsing content false s h = refl

  -- Once the timer of an edit has fired, the hook still says that it parses exactly where the text
  -- is blank.
  pub parser_flag :
      (s : Parser D) (content : Text)
      → (parser_run load s (edit content ∷ fire ∷ [])).is_parsing ≡ is_blank content
  unfolding parser_run parser_step parse_fire
  parser_flag s content = parse_yaml-is_parsing content (is_blank content) _ refl
