-- ===== src/Editing.antt =====
-- ui/src/hooks/useYamlParser.ts and useYamlValidation.ts: the two hooks that follow the text in the
-- configuration editor after a pause. `timer` is the text of the pending `setTimeout`; an edit puts
-- a new timer in its place. `load` stands for `yaml.load`: its value, or what it throws, an `Error`
-- with its message or not.
pub mod Current
pub mod Consistent
mod Tests
use otel_hive.Base.{ℕ, ◌+◌, Bool, true, false, Option, none, some, List, [], ◌∷◌, map, zero, suc}
use otel_hive.Text.{Text, text, trim}
use otel_hive.Validation.Types.{
  ValidationError, ValidationResult, Severity, error, warning, ParsedData,
}
use otel_hive.Validation.Run.{Validator, validate_yaml_config}

pub data Load (D : Type 0) : Type 0 where
  value : D → Load D
  throwing : Option Text → Load D

abbrev pub message_or : Text → Option Text → Text
message_or default none = default
message_or default (some message) = message

-- `!content.trim()`
abbrev pub is_blank : Text → Bool
is_blank content = elim (trim content) [ [] ↦ true | c ∷ s ↦ false ]

pub data Event : Type 0 where
  edit : Text → Event
  fire : Event

-- useYamlParser.ts
pub record ParseResult (D : Type 0) : Type 0 where
  pub valid : Bool
  pub data_ : Option D
  pub error : Option Text

pub record Parser (D : Type 0) : Type 0 where
  pub content : Text
  pub timer : Option Text
  pub result : ParseResult D
  pub is_parsing : Bool

module _ {D : Type 0} (load : Text → Load D) where
  abbrev pub parsed : Load D → ParseResult D
  parsed (value d) = record { valid = true; data_ = some d; error = none }
  parsed (throwing e) = record {
    valid = false;
    data_ = none;
    error = some (message_or (text "Failed to parse YAML") e);
  }

  -- `parseYaml`; a blank text returns before the `try`, whose `finally` resets the flag.
  pub parse_yaml : Text → Bool → Parser D → Parser D
  parse_yaml content true s = record s {
    result = record { valid = true; data_ = none; error = none };
  }
  parse_yaml content false s = record s { result = parsed (load content); is_parsing = false }

  pub parse_fire : Option Text → Parser D → Parser D
  unfolding parse_yaml
  parse_fire none s = s
  parse_fire (some content) s = parse_yaml content (is_blank content) (record s { timer = none })

  unfoldable pub parser_step : Parser D → Event → Parser D
  unfolding parse_fire
  parser_step s (edit content) = record s {
    content = content;
    timer = some content;
    is_parsing = true;
  }
  parser_step s fire = parse_fire s.timer s

  unfoldable pub parser_run : Parser D → List Event → Parser D
  unfolding parser_step
  parser_run s [] = s
  parser_run s (e ∷ es) = parser_run (parser_step s e) es

-- useYamlValidation.ts
pub record Marker : Type 0 where
  pub severity : ℕ
  pub start_line : ℕ
  pub start_column : ℕ
  pub end_line : ℕ
  pub end_column : ℕ
  pub message : Text

pub record Checker : Type 0 where
  pub content : Text
  pub timer : Option Text
  pub result : ValidationResult
  pub is_validating : Bool
  pub markers : List Marker

abbrev pub severity_code : Severity → ℕ
severity_code error = 8
severity_code warning = 4

-- `a || b` on numbers.
abbrev pub number_or : Option ℕ → ℕ → ℕ
number_or none b = b
number_or (some zero) b = b
number_or (some (suc n)) b = suc n

unfoldable pub marker : ValidationError → Marker
marker e = record {
  severity = severity_code e.severity;
  start_line = e.line;
  start_column = e.column;
  end_line = number_or e.end_line e.line;
  end_column = number_or e.end_column (e.column + 1);
  message = e.message;
}

module _ (load : Text → Load ParsedData) (validators : List Validator) (has_editor : Bool) where
  -- The markers are replaced where the editor is there.
  abbrev pub show_markers : Bool → List ValidationError → List Marker → List Marker
  show_markers true errors old = map marker errors
  show_markers false errors old = old

  pub check_loaded : Text → Load ParsedData → Checker → Checker
  unfolding validate_yaml_config marker
  check_loaded content (value d) s =
      let result = validate_yaml_config content d validators in
      record s {
        result = result;
        markers = show_markers has_editor result.errors s.markers;
        is_validating = false;
      }
  check_loaded content (throwing e) s = record s {
    result = record {
      valid = false;
      errors =
          record {
            message = message_or (text "YAML parse error") e;
            severity = error;
            line = 1;
            column = 1;
            end_line = none;
            end_column = none;
            path = none;
          }
          ∷ [];
    };
    is_validating = false;
  }

  -- `performValidation`
  pub perform_validation : Text → Bool → Checker → Checker
  unfolding check_loaded
  perform_validation content true s = record s {
    result = record { valid = true; errors = [] };
    is_validating = false;
  }
  perform_validation content false s = check_loaded content (load content) s

  pub check_fire : Option Text → Checker → Checker
  unfolding perform_validation
  check_fire none s = s
  check_fire (some content) s =
      perform_validation content (is_blank content) (record s { timer = none })

  unfoldable pub checker_step : Checker → Event → Checker
  unfolding check_fire
  checker_step s (edit content) = record s {
    content = content;
    timer = some content;
    is_validating = true;
  }
  checker_step s fire = check_fire s.timer s

  unfoldable pub checker_run : Checker → List Event → Checker
  unfolding checker_step
  checker_run s [] = s
  checker_run s (e ∷ es) = checker_run (checker_step s e) es
