-- ===== src/Components/Lines.antt =====
-- yaml-parser.ts: where the components that are found stand.
use otel_hive.Base.{
  ℕ, ◌+◌, ◌<◌, ◌≡◌, refl, ◌∙◌, sym, subst, inl, inr, none, some, List, [], ◌∷◌, ◌++◌, length, All,
  Option-cases, Bool-cases, append_assoc, length-append, arith,
}
use otel_hive.Text.{Text, trim, split}
use otel_hive.Components.{
  YamlComponent, search_non_space, Header, opens, closes, other, header_of, is_component, State,
  component_at, cons_found, found_at, next_state, parse_lines, parse_yaml_components,
}
use otel_hive.Components.Headers.{
  IsNoHeader, FoundIn, search-IsIndented, is_component-Names, is_component-deeper, Says,
  header_of-Says, StateIs, next_state-StateIs,
}

-- The numbers of the lines go up.
abbrev pub Ascending : List YamlComponent → Type 0
Ascending [] = Unit
Ascending (c ∷ cs) = All (λ d. c.line_number < d.line_number) cs × Ascending cs

none-ne-some : {c : YamlComponent} → ¬ (none ≡ some c)
none-ne-some h = cc

some_injective : {c d : YamlComponent} → some c ≡ some d → c ≡ d
some_injective h = cc

module _ (all : List Text) where
  component_at-FoundIn :
      (state : State) (passed : List Text) (line : Text) (after : List Text) (c : YamlComponent)
      → all ≡ passed ++ (line ∷ after)
      → StateIs passed state
      → IsNoHeader line
      → component_at state line (length passed) ≡ some c
      → FoundIn all c
  unfolding component_at
  component_at-FoundIn none passed line after c parts below plain h = cc
  component_at-FoundIn (some (section, k)) passed line after c parts below plain h =
      elim (Option-cases (search_non_space line)) [
        | inl e ↦ absurd (none-ne-some (rw (e, component_at) at h))
        | inr (at, e) ↦ elim (Bool-cases (is_component k at line)) [
          | inr fails ↦ absurd (none-ne-some (rw (e, fails, component_at) at h))
          | inl passes ↦
              let (deeper, near) = is_component-deeper k at line passes in
              subst (FoundIn all) (some_injective (rw (e, passes, component_at) at h)) (record {
                passed = passed;
                line = line;
                after = after;
                parts = parts;
                number = refl;
                names = is_component-Names k at line passes;
                no_header = plain;
                section_indent = k;
                section = below;
                indent = at;
                indented = search-IsIndented line at e;
                deeper = deeper;
                not_far = near;
              })
        ]
      ]

  found_at-FoundIn :
      (header : Header) (state : State) (passed : List Text) (line : Text) (after : List Text)
      (cs : List YamlComponent)
      → all ≡ passed ++ (line ∷ after)
      → StateIs passed state
      → Says line header
      → All (FoundIn all) cs
      → All (FoundIn all) (cons_found (found_at header state line (length passed)) cs)
  found_at-FoundIn (opens section) state passed line after cs parts below says h = h
  found_at-FoundIn closes state passed line after cs parts below says h = h
  found_at-FoundIn other state passed line after cs parts below says h =
      elim (Option-cases (component_at state line (length passed))) [
        | inl e ↦ rw e h
        | inr (c, e) ↦ rw e (component_at-FoundIn state passed line after c parts below says e, h)
      ]

  parse_lines-FoundIn :
      (lines : List Text) (state : State) (passed : List Text)
      → all ≡ passed ++ lines
      → StateIs passed state
      → All (FoundIn all) (parse_lines state lines (length passed))
  unfolding parse_lines
  parse_lines-FoundIn [] state passed parts below = tt
  parse_lines-FoundIn (line ∷ lines) state passed parts below =
      let header = header_of (trim line) in
      let says = header_of-Says line in
      let further = parts ∙ sym (append_assoc passed (line ∷ []) lines) in
      let rest =
        parse_lines-FoundIn lines (next_state header state line) (passed ++ (line ∷ [])) further
          (next_state-StateIs header state passed line says below) in
      found_at-FoundIn header state passed line lines _ parts below says (
        subst (λ n. All (FoundIn all) (parse_lines (next_state header state line) lines n))
          (length-append passed (line ∷ [])) rest)

component_at-number :
    (state : State) (line : Text) (index : ℕ) (c : YamlComponent)
    → component_at state line index ≡ some c
    → c.line_number ≡ index + 1
unfolding component_at
component_at-number none line index c h = cc
component_at-number (some (section, k)) line index c h =
    elim (Option-cases (search_non_space line)) [
      | inl e ↦ absurd (none-ne-some (rw (e, component_at) at h))
      | inr (at, e) ↦ elim (Bool-cases (is_component k at line)) [
        | inl passes ↦
            subst (λ (d : YamlComponent). d.line_number ≡ index + 1)
              (some_injective (rw (e, passes, component_at) at h)) refl
        | inr fails ↦ absurd (none-ne-some (rw (e, fails, component_at) at h))
      ]
    ]

further_on :
    (index : ℕ) (cs : List YamlComponent)
    → All (λ d. index + 1 < d.line_number) cs
    → All (λ d. index < d.line_number) cs
further_on index [] h = tt
further_on index (c ∷ cs) h = (omega (arith, h.0), further_on index cs h.1)

found_at-Ascending :
    (header : Header) (state : State) (line : Text) (index : ℕ) (cs : List YamlComponent)
    → All (λ d. index + 1 < d.line_number) cs
    → Ascending cs
    → All (λ d. index < d.line_number) (cons_found (found_at header state line index) cs)
      × Ascending (cons_found (found_at header state line index) cs)
found_at-Ascending (opens section) state line index cs h k = (further_on index cs h, k)
found_at-Ascending closes state line index cs h k = (further_on index cs h, k)
found_at-Ascending other state line index cs h k =
    elim (Option-cases (component_at state line index)) [
      | inl e ↦ rw e (further_on index cs h, k)
      | inr (c, e) ↦
          let number = component_at-number state line index c e in
          rw e (
            (omega (arith, number), further_on index cs h),
            (subst (λ n. All (λ d. n < d.line_number) cs) (sym number) h, k),
          )
    ]

parse_lines-Ascending :
    (lines : List Text) (state : State) (index : ℕ)
    → All (λ d. index < d.line_number) (parse_lines state lines index)
      × Ascending (parse_lines state lines index)
unfolding parse_lines
parse_lines-Ascending [] state index = (tt, tt)
parse_lines-Ascending (line ∷ lines) state index =
    let (later, up) =
      parse_lines-Ascending lines (next_state (header_of (trim line)) state line) (index + 1) in
    found_at-Ascending (header_of (trim line)) state line index _ later up

-- Every component that is found is named by the line of its number: without the blanks around it this
-- is the name, not empty and with no blank in it, and a colon. The last header above it is that of its
-- section, which is one to four columns further to the left. The numbers go up, so that a line gives
-- one component at most.
pub parse_yaml_components-FoundIn :
    (yaml_content : Text)
    → All (FoundIn (split 10 yaml_content)) (parse_yaml_components yaml_content)
      × Ascending (parse_yaml_components yaml_content)
unfolding parse_yaml_components
parse_yaml_components-FoundIn yaml_content = (
  parse_lines-FoundIn (split 10 yaml_content) (split 10 yaml_content) none [] refl tt,
  (parse_lines-Ascending (split 10 yaml_content) none 0).1,
)
