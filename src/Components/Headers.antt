-- ===== src/Components/Headers.antt =====
-- yaml-parser.ts: what a line says, and the header that stands above it.
use otel_hive.Base.{
  ℕ, suc, ◌+◌, ◌<◌, ◌≤◌, ◌≡◌, ◌≢◌, refl, ap, ◌∙◌, sym, inl, inr, true, false, none, some, List, [],
  ◌∷◌, ◌++◌, length, take, get_elem?, All, All-append, Option-cases, Bool-cases, append_assoc,
  arith,
}
use otel_hive.Text.{Text, text, text_eq, trim, is_space}
use otel_hive.Text.Laws.{text_eq→eq, ne-of_text_eq}
use otel_hive.Components.{
  Section, receiver, processor, exporter, YamlComponent, search_non_space, ends_with_colon,
  without_last, has_blank, is_empty, Header, opens, closes, other, header_of, name_of, is_component,
  State, next_state,
}

-- The line begins with so many white spaces, and with no more.
abbrev pub IsIndented : ℕ → Text → Type 0
IsIndented n line =
    All (λ c. is_space c ≡ true) (take n line)
    × ((c : ℕ) × (get_elem? line n ≡ some c) × (is_space c ≡ false))

-- The word of a section.
abbrev pub word : Section → Text
word receiver = text "receivers:"
word processor = text "processors:"
word exporter = text "exporters:"

-- The line is no header, of a section of components or of another one.
abbrev pub IsNoHeader : Text → Type 0
IsNoHeader line =
    (trim line ≢ text "receivers:")
    × (trim line ≢ text "processors:")
    × (trim line ≢ text "exporters:")
    × (trim line ≢ text "service:")
    × (trim line ≢ text "extensions:")
    × (trim line ≢ text "connectors:")

-- The last header above, below `passed`, is that of a section of components and is so far indented.
pub record IsBelow (section : Section) (indent : ℕ) (passed : List Text) : Type 0 where
  pub before : List Text
  pub header : Text
  pub between : List Text
  pub parts : passed ≡ before ++ (header ∷ between)
  pub opened : trim header ≡ word section
  pub indented : IsIndented indent header
  pub no_header : All IsNoHeader between

-- The line defines the name: `name:`, with no blank in it.
pub record Names (line : Text) (name : Text) : Type 0 where
  pub key : Text
  pub reads : trim line ≡ key ++ (b':' ∷ [])
  pub same : name ≡ trim key
  pub nonempty : name ≢ []
  pub no_blank : All (λ c. c ≢ 32) name

-- The component is named by the line of its number, `line`, one to four further to the right than the
-- header of its section, which is the last header above.
pub record FoundIn (lines : List Text) (c : YamlComponent) : Type 0 where
  pub passed : List Text
  pub line : Text
  pub after : List Text
  pub parts : lines ≡ passed ++ (line ∷ after)
  pub number : c.line_number ≡ length passed + 1
  pub names : Names line c.name
  pub no_header : IsNoHeader line
  pub section_indent : ℕ
  pub section : IsBelow c.type section_indent passed
  pub indent : ℕ
  pub indented : IsIndented indent line
  pub deeper : section_indent < indent
  pub not_far : indent ≤ section_indent + 4

pub none-ne-number : {n : ℕ} → ¬ (none ≡ some n)
none-ne-number h = cc

pub number_injective : {m n : ℕ} → some m ≡ some n → m ≡ n
number_injective h = cc

pub search-IsIndented : (line : Text) (n : ℕ) → search_non_space line ≡ some n → IsIndented n line
unfolding search_non_space
search-IsIndented [] n h = cc
search-IsIndented (c ∷ line) n h = elim (Bool-cases (is_space c)) [
  | inr full ↦
      let first : n ≡ 0 = number_injective (sym (rw (full, search_non_space) at h)) in
      rw first (tt, (c, refl, full))
  | inl blank ↦ elim (Option-cases (search_non_space line)) [
    | inl e ↦ absurd (none-ne-number (rw (blank, e, search_non_space) at h))
    | inr (i, e) ↦
        let next : n ≡ suc i = number_injective (sym (rw (blank, e, search_non_space) at h)) in
        let (blanks, rest) = search-IsIndented line i e in rw next ((blank, blanks), rest)
  ]
]

pub colon_last : (s : Text) → ends_with_colon s ≡ true → s ≡ without_last s ++ (58 ∷ [])
colon_last [] h = cc
colon_last (c ∷ []) h = ap (λ d. d ∷ []) (ground arith)
colon_last (c ∷ d ∷ s) h = ap (◌∷◌ c) (colon_last (d ∷ s) h)

pub no_blank-All : (s : Text) → has_blank s ≡ false → All (λ c. c ≢ 32) s
no_blank-All [] h = tt
no_blank-All (c ∷ s) h = ((λ e. ground arith), no_blank-All s (ground arith))

pub not_empty : (s : Text) → is_empty s ≡ false → s ≢ []
not_empty [] h = cc
not_empty (c ∷ s) h = λ e. cc

pub is_component-Names :
    (section_indent indent : ℕ) (line : Text)
    → is_component section_indent indent line ≡ true
    → Names line (name_of line)
unfolding is_component
is_component-Names section_indent indent line h = record {
  key = without_last (trim line);
  reads = colon_last (trim line) (ground arith);
  same = refl;
  nonempty = not_empty (name_of line) (ground arith);
  no_blank = no_blank-All (name_of line) (ground arith);
}

pub is_component-deeper :
    (section_indent indent : ℕ) (line : Text)
    → is_component section_indent indent line ≡ true
    → (section_indent < indent) × (indent ≤ section_indent + 4)
unfolding is_component
is_component-deeper section_indent indent line h = (ground arith, ground arith)

-- What the header of a line says.
abbrev pub Says : Text → Header → Type 0
Says line (opens section) = trim line ≡ word section
Says line closes = Unit
Says line other = IsNoHeader line

pub header_of-Says : (line : Text) → Says line (header_of (trim line))
unfolding header_of
header_of-Says line = elim (Bool-cases (text_eq (trim line) (text "receivers:"))) [
  | inl e ↦ rw e (text_eq→eq _ _ e)
  | inr a ↦ elim (Bool-cases (text_eq (trim line) (text "processors:"))) [
    | inl e ↦ rw (a, e) (text_eq→eq _ _ e)
    | inr b ↦ elim (Bool-cases (text_eq (trim line) (text "exporters:"))) [
      | inl e ↦ rw (a, b, e) (text_eq→eq _ _ e)
      | inr c ↦ elim (Bool-cases (text_eq (trim line) (text "service:"))) [
        | inl e ↦ rw (a, b, c, e) tt
        | inr d ↦ elim (Bool-cases (text_eq (trim line) (text "extensions:"))) [
          | inl e ↦ rw (a, b, c, d, e) tt
          | inr f ↦ elim (Bool-cases (text_eq (trim line) (text "connectors:"))) [
            | inl e ↦ rw (a, b, c, d, f, e) tt
            | inr g ↦
                rw (a, b, c, d, f, g)
                  (
                    ne-of_text_eq _ _ a,
                    ne-of_text_eq _ _ b,
                    ne-of_text_eq _ _ c,
                    ne-of_text_eq _ _ d,
                    ne-of_text_eq _ _ f,
                    ne-of_text_eq _ _ g,
                  )
          ]
        ]
      ]
    ]
  ]
]

-- What the state says of the lines so far.
abbrev pub StateIs : List Text → State → Type 0
StateIs passed none = Unit
StateIs passed (some (section, indent)) = IsBelow section indent passed

pub next_state-StateIs :
    (header : Header) (state : State) (passed : List Text) (line : Text)
    → Says line header
    → StateIs passed state
    → StateIs (passed ++ (line ∷ [])) (next_state header state line)
next_state-StateIs (opens section) state passed line says h =
    elim (Option-cases (search_non_space line)) [
      | inl e ↦ rw e tt
      | inr (n, e) ↦ rw e (record {
        before = passed;
        header = line;
        between = [];
        parts = refl;
        opened = says;
        indented = search-IsIndented line n e;
        no_header = tt;
      })
    ]
next_state-StateIs closes state passed line says h = tt
next_state-StateIs other none passed line says h = tt
next_state-StateIs other (some (section, indent)) passed line says h = record {
  before = h.before;
  header = h.header;
  between = h.between ++ (line ∷ []);
  parts =
      ap (λ p. p ++ (line ∷ [])) h.parts ∙ append_assoc h.before (h.header ∷ h.between) (line ∷ []);
  opened = h.opened;
  indented = h.indented;
  no_header = All-append IsNoHeader h.between (line ∷ []) h.no_header (says, tt);
}
