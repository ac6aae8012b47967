-- ===== src/Editing/Consistent.antt =====
-- What both hooks say of a text, and that the validation is called valid by its errors only.
use otel_hive.Base.{◌≡◌, refl, sym, subst, Bool, true, false, Option, none, some, List}
use otel_hive.Text.{Text}
use otel_hive.Validation.Types.{ValidationResult, ParsedData}
use otel_hive.Validation.Run.{Validator, no_severe, validate_yaml_config}
use otel_hive.Editing.{
  Load, value, throwing, is_blank, Event, edit, fire, Parser, parsed, parse_yaml, parse_fire,
  parser_step, Checker, check_fire, checker_step,
}
use otel_hive.Editing.Current.{loaded_verdict, verdict, perform_validation-lem}

-- The result calls the text valid exactly where none of its errors is of severity "error".
abbrev pub IsConsistent : ValidationResult → Type 0
IsConsistent r = r.valid ≡ no_severe r.errors

module _ (load : Text → Load ParsedData) (validators : List Validator) (has_editor : Bool) where
  loaded_verdict-IsConsistent :
      (content : Text) (l : Load ParsedData)
      → IsConsistent (loaded_verdict load validators has_editor content l)
  unfolding validate_yaml_config no_severe
  loaded_verdict-IsConsistent content (value d) = refl
  loaded_verdict-IsConsistent content (throwing e) = refl

  pub verdict-IsConsistent :
      (content : Text) (blank : Bool)
      → IsConsistent (verdict load validators has_editor content blank)
  unfolding no_severe
  verdict-IsConsistent content true = refl
  verdict-IsConsistent content false = loaded_verdict-IsConsistent content (load content)

  check_fire-IsConsistent :
      (timer : Option Text) (s : Checker)
      → IsConsistent s.result
      → IsConsistent (check_fire load validators has_editor timer s).result
  unfolding check_fire
  check_fire-IsConsistent none s h = h
  check_fire-IsConsistent (some content) s h =
      let (t, c, v, result) =
        perform_validation-lem load validators has_editor content (is_blank content)
          (record s { timer = none }) in
      subst IsConsistent (sym result) (verdict-IsConsistent content (is_blank content))

  pub checker_step-IsConsistent :
      (s : Checker) (e : Event)
      → IsConsistent s.result
      → IsConsistent (checker_step load validators has_editor s e).result
  unfolding checker_step
  checker_step-IsConsistent s (edit content) h = h
  checker_step-IsConsistent s fire h = check_fire-IsConsistent s.timer s h

  -- After an edit and its pause, the result is that of the text.
  pub checker_fired :
      (content : Text) (s : Checker)
      → (checker_step load validators has_editor
          (checker_step load validators has_editor s (edit content))
          fire).result
        ≡ verdict load validators has_editor content (is_blank content)
  unfolding checker_step check_fire
  checker_fired content s =
      let (t, c, v, result) =
        perform_validation-lem load validators has_editor content (is_blank content) _ in
      result

-- The text loads.
abbrev pub loads : Load ParsedData → Bool
loads (value d) = true
loads (throwing e) = false

abbrev pub accepted : (Text → Load ParsedData) → Text → Bool → Bool
accepted load content true = true
accepted load content false = loads (load content)

pub parser_fired :
    (load : Text → Load ParsedData) (content : Text) (s : Parser ParsedData)
    → (parser_step load (parser_step load s (edit content)) fire).result.valid
      ≡ accepted load content (is_blank content)
unfolding parser_step parse_fire
parser_fired load content s = parse_valid (is_blank content) _
  where
    loaded : (l : Load ParsedData) → (parsed load l).valid ≡ loads l
    loaded (value d) = refl
    loaded (throwing e) = refl

    parse_valid :
        (blank : Bool) (t : Parser ParsedData)
        → (parse_yaml load content blank t).result.valid ≡ accepted load content blank
    parse_valid true t = refl
    parse_valid false t = loaded (load content)
