-- ===== src/Validation/Position.antt =====
-- yaml-position.ts: the line and column of a key or of a component in the text of a configuration.
-- `regexp` stands for the `RegExp` constructor on `\b<name>\b` where the name holds a syntax
-- character of regular expressions; its `none` is the SyntaxError. All other names match themselves,
-- at word boundaries, which is written out here.
pub mod Matches
pub mod Covers
pub mod Spans
pub mod Total
use otel_hive.Base.{
  ℕ, suc, ◌+◌, ◌-◌, ◌≡◌, Bool, true, false, not, ◌&&◌, ◌||◌, Option, none, some, List, [], ◌∷◌,
  length, drop, get_elem?, ltb, leb, ◌==◌, if◌then◌else◌,
}
use otel_hive.Text.{
  truthy, Text, text, text_eq, starts_with, index_of, is_word, trim_start, trim, split,
}
use otel_hive.Validation.Patterns.{key_match, inline_match, word_from, is_literal}
use otel_hive.Validation.Types.{Throws, ok, throws, ◌>>=◌, Severity, ValidationError}

pub record Position : Type 0 where
  pub line : ℕ
  pub column : ℕ
  pub end_line : ℕ
  pub end_column : ℕ

-- The position of `width` code units from `column` on, in the line of index `i`.
abbrev pub position_at : ℕ → ℕ → ℕ → Position
position_at i column width = record {
  line = i + 1;
  column = column;
  end_line = i + 1;
  end_column = column + width;
}

-- `line.indexOf(name) + 1`
pub column_of : Text → Text → ℕ
column_of line name = elim (index_of line name) [ none ↦ 0 | some i ↦ i + 1 ]

pub indent_of : Text → ℕ
indent_of line = length line - length (trim_start line)

abbrev is_empty : Text → Bool
is_empty [] = true
is_empty (c ∷ s) = false

-- Empty lines and comments.
pub is_skipped : Text → Bool
is_skipped trimmed = is_empty trimmed || starts_with trimmed (text "#")

-- No component, or one whose name holds no syntax character.
abbrev pub IsLiteral : Option Text → Type 0
IsLiteral component = (name : Text) → component ≡ some name → is_literal name ≡ true

-- What a line does to the search: the new path index and indentation, or the key of the target.
pub data Scan : Type 0 where
  go_on : ℕ → ℕ → Scan
  at_target : Text → Scan

-- The searched key, if the line defines it.
pub wanted : List Text → ℕ → Text → Option Text
unfolding key_match
wanted path path_index trimmed = elim (get_elem? path path_index) [
  | none ↦ none
  | some search_key ↦ elim (key_match trimmed) [
    | none ↦ none
    | some key ↦ if text_eq (trim key) search_key then some search_key else none
  ]
]

pub scan : List Text → ℕ → ℕ → Text → Scan
unfolding is_skipped wanted indent_of
scan path path_index current_indent line =
    if is_skipped (trim line)
    then go_on path_index current_indent
    else elim (wanted path path_index (trim line)) [
      | some key ↦
          if path_index + 1 == length path
          then at_target key
          else go_on (path_index + 1) (indent_of line)
      | none ↦
          if ltb (indent_of line) current_indent then go_on 0 0 else go_on path_index current_indent
    ]

-- The error at a position, or at line 1 where there is none.
abbrev pub error_at : Text → Severity → List Text → Option Position → ValidationError
error_at message severity path (some p) = record {
  message = message;
  severity = severity;
  line = p.line;
  column = p.column;
  end_line = some p.end_line;
  end_column = some p.end_column;
  path = some path;
}
error_at message severity path none = record {
  message = message;
  severity = severity;
  line = 1;
  column = 1;
  end_line = none;
  end_column = none;
  path = some path;
}

module _ (regexp : Text → Option (Text → Bool)) where
  -- `new RegExp(...)` and its `test`.
  pub component_regexp : Text → Option (Text → Bool)
  unfolding word_from is_literal
  component_regexp name = if is_literal name then some (word_from name false) else regexp name

  -- The component in an array on the key's own line.
  pub find_inline : Text → Text → ℕ → Throws (Option Position)
  unfolding component_regexp inline_match column_of
  find_inline name line i = elim (inline_match line) [
    | none ↦ ok none
    | some content ↦ elim (component_regexp name) [
      | none ↦ throws
      | some test ↦
          ok (
            if test content then some (position_at i (column_of line name) (length name)) else none)
    ]
  ]

  -- The component among the array items on the following lines.
  pub find_item : Text → ℕ → List Text → ℕ → Throws (Option Position)
  unfolding component_regexp column_of is_skipped indent_of
  find_item name current_indent [] j = ok none
  find_item name current_indent (line ∷ lines) j =
      let rest = find_item name current_indent lines (j + 1) in
      if is_skipped (trim line)
      then rest
      else if leb (indent_of line) current_indent
      then ok none
      else if starts_with (trim line) (text "-")
      then elim (component_regexp name) [
        | none ↦ throws
        | some test ↦
            if test (trim line)
            then ok (some (position_at j (column_of line name) (length name)))
            else rest
      ]
      else rest

  -- The answer at the target line: the component, or else the key.
  pub locate : Option Text → Text → Text → List Text → ℕ → Throws Position
  unfolding find_inline find_item
  locate none key line below i = ok (position_at i (column_of line key) (length key))
  locate (some name) key line below i = do
    inline ← find_inline name line i
    elim inline [
      | some found ↦ ok found
      | none ↦ do
        item ← find_item name (indent_of line) below (i + 1)
        elim item [
          | some found ↦ ok found
          | none ↦ ok (position_at i (column_of line key) (length key))
        ]
    ]

  pub find_from : List Text → Option Text → List Text → ℕ → ℕ → ℕ → Throws (Option Position)
  unfolding scan locate
  find_from path component [] i path_index current_indent = ok none
  find_from path component (line ∷ lines) i path_index current_indent =
      elim (scan path path_index current_indent line) [
        | go_on path_index' current_indent' ↦
            find_from path component lines (i + 1) path_index' current_indent'
        | at_target key ↦ do found ← locate (truthy component) key line lines i; ok (some found)
      ]

  unfoldable pub find_yaml_position : Text → List Text → Option Text → Throws (Option Position)
  unfolding find_from
  find_yaml_position yaml_content path component_name =
      find_from path component_name (split 10 yaml_content) 0 0 0

  unfoldable pub create_validation_error :
      Text → Text → List Text → Option Text → Severity → Throws ValidationError
  unfolding find_yaml_position
  create_validation_error message yaml_content path component_name severity = do
    position ← find_yaml_position yaml_content path component_name
    ok (error_at message severity path position)
