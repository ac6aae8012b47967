-- ===== src/Components.antt =====
-- ui/src/utils/yaml-parser.ts, `parseYamlComponents`: the components that the editor marks with
-- their metrics, found line by line.
pub mod Headers
pub mod Lines
mod Tests
use otel_hive.Base.{
  ℕ, zero, suc, ◌+◌, ◌-◌, Bool, true, false, not, ◌&&◌, ◌||◌, Option, none, some, List, [], ◌∷◌,
  ltb, leb, ◌==◌, if◌then◌else◌,
}
use otel_hive.Text.{Text, text, text_eq, starts_with, is_space, trim, split}

pub data Section : Type 0 where
  receiver processor exporter : Section

pub record YamlComponent : Type 0 where
  pub name : Text
  pub type : Section
  pub line_number : ℕ

-- `line.search(/\S/)`, with `none` for -1.
pub search_non_space : Text → Option ℕ
search_non_space [] = none
search_non_space (c ∷ s) =
    let rest = search_non_space s in
    if is_space c then elim rest [ none ↦ none | some i ↦ some (suc i) ] else some 0

-- `s.endsWith(":")`
abbrev pub ends_with_colon : Text → Bool
ends_with_colon [] = false
ends_with_colon (c ∷ []) = c == b':'
ends_with_colon (c ∷ d ∷ s) = ends_with_colon (d ∷ s)

-- `s.slice(0, -1)`
abbrev pub without_last : Text → Text
without_last [] = []
without_last (c ∷ []) = []
without_last (c ∷ d ∷ s) = c ∷ without_last (d ∷ s)

abbrev pub has_blank : Text → Bool
has_blank [] = false
has_blank (c ∷ s) = c == 32 || has_blank s

abbrev pub is_empty : Text → Bool
is_empty [] = true
is_empty (c ∷ s) = false

-- `Math.abs(a - b)`
abbrev pub distance : ℕ → ℕ → ℕ
distance a b = (a - b) + (b - a)

-- What a line is: the header of a section of components, of another section, or neither.
pub data Header : Type 0 where
  opens : Section → Header
  closes : Header
  other : Header

pub header_of : Text → Header
header_of trimmed =
    if text_eq trimmed (text "receivers:")
    then opens receiver
    else if text_eq trimmed (text "processors:")
    then opens processor
    else if text_eq trimmed (text "exporters:")
    then opens exporter
    else if text_eq trimmed (text "service:")
        || text_eq trimmed (text "extensions:")
        || text_eq trimmed (text "connectors:")
    then closes
    else other

-- `componentName`
abbrev pub name_of : Text → Text
name_of line = trim (without_last (trim line))

-- The tests on a line below a header at `section_indent`, itself at `indent`.
pub is_component : ℕ → ℕ → Text → Bool
is_component section_indent indent line =
    ltb section_indent indent
    && (ends_with_colon (trim line) && not (starts_with (trim line) (text "-")))
    && leb (distance indent (section_indent + 2)) 2
    && not (is_empty (name_of line))
    && not (has_blank (name_of line))

-- `currentSection` and, where it is set, `sectionIndent`.
abbrev pub State : Type 0
State = Option (Section × ℕ)

pub component_at : State → Text → ℕ → Option YamlComponent
unfolding search_non_space is_component
component_at none line index = none
component_at (some (section, section_indent)) line index = elim (search_non_space line) [
  | none ↦ none
  | some indent ↦
      if is_component section_indent indent line
      then some (record { name = name_of line; type = section; line_number = index + 1 })
      else none
]

abbrev pub open_section : Section → Option ℕ → State
open_section section none = none
open_section section (some indent) = some (section, indent)

abbrev pub cons_found : Option YamlComponent → List YamlComponent → List YamlComponent
cons_found none rest = rest
cons_found (some c) rest = c ∷ rest

-- The section after a line.
abbrev pub next_state : Header → State → Text → State
next_state (opens section) state line = open_section section (search_non_space line)
next_state closes state line = none
next_state other state line = state

-- A header is no component.
abbrev pub found_at : Header → State → Text → ℕ → Option YamlComponent
found_at (opens section) state line index = none
found_at closes state line index = none
found_at other state line index = component_at state line index

unfoldable pub parse_lines : State → List Text → ℕ → List YamlComponent
unfolding header_of component_at search_non_space
parse_lines state [] index = []
parse_lines state (line ∷ lines) index =
    let header = header_of (trim line) in
    cons_found (found_at header state line index)
      (parse_lines (next_state header state line) lines (index + 1))

unfoldable pub parse_yaml_components : Text → List YamlComponent
unfolding parse_lines
parse_yaml_components yaml_content = parse_lines none (split 10 yaml_content) 0
