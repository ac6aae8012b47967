-- ===== src/Panel/Hover.antt =====
-- ConfigEditorSideBySide.tsx, `provideHover`: what the pointer shows over an error.
use otel_hive.Base.{
  ℕ, ◌+◌, ◌≤◌, ◌≡◌, refl, subst, true, some, List, [], ◌∷◌, ◌++◌, map, leb_refl, le→leb, keep, In,
  In-keep, In-map,
}
use otel_hive.Text.{Text, text}
use otel_hive.Validation.Types.{Severity, error, warning, ValidationError}
use otel_hive.Editing.{Marker, marker, number_or, severity_code}
use otel_hive.Panel.{is_hovered, hover_content, provide_hover}

-- The error does not end before it begins.
pub record IsSpan (e : ValidationError) : Type 0 where
  pub lines : e.line ≤ number_or e.end_line e.line
  pub columns : e.column ≤ number_or e.end_column (e.column + 1)

-- How an error is written.
abbrev pub labelled : Severity → Text → Text
labelled error message = text "**Error**: " ++ message
labelled warning message = text "**Warning**: " ++ message

is_hovered-marker : (e : ValidationError) → IsSpan e → is_hovered e.line e.column (marker e) ≡ true
unfolding marker
is_hovered-marker e h =
    rw
      (
        leb_refl e.line,
        leb_refl e.column,
        le→leb e.line (number_or e.end_line e.line) h.lines,
        le→leb e.column (number_or e.end_column (e.column + 1)) h.columns,
      )
      refl

hover_content-marker :
    (e : ValidationError) → hover_content (marker e) ≡ labelled e.severity e.message
unfolding marker hover_content
hover_content-marker e = by_severity e.severity
  where
    by_severity :
        (s : Severity)
        → hover_content (record (marker e) { severity = severity_code s }) ≡ labelled s e.message
    by_severity error = refl
    by_severity warning = refl

provide_hover-In :
    (markers : List Marker) (line column : ℕ) (m : Marker)
    → In m (keep (is_hovered line column) markers)
    → (contents : List Text) × (provide_hover markers line column ≡ some contents)
      × In (hover_content m) contents
unfolding provide_hover
provide_hover-In markers line column m i = go (keep (is_hovered line column) markers) refl i
  where
    go :
        (hovered : List Marker)
        → keep (is_hovered line column) markers ≡ hovered
        → In m hovered
        → (contents : List Text) × (provide_hover markers line column ≡ some contents)
          × In (hover_content m) contents
    go [] e j = elim j [ ]
    go (n ∷ ns) e j =
        (map hover_content (n ∷ ns), rw (e, provide_hover) refl, In-map hover_content j)

-- Over the start of an error that does not end before it, the pointer shows its message, with its
-- severity in front.
pub provide_hover-marker :
    (errors : List ValidationError) (e : ValidationError)
    → In e errors
    → IsSpan e
    → (contents : List Text) × (provide_hover (map marker errors) e.line e.column ≡ some contents)
      × In (labelled e.severity e.message) contents
unfolding marker
provide_hover-marker errors e i h =
    let (contents, shown, j) =
      provide_hover-In (map marker errors) e.line e.column (marker e)
        ((In-keep _ (marker e) (map marker errors)).1 (In-map marker i, is_hovered-marker e h)) in
    (contents, shown, subst (λ t. In t contents) (hover_content-marker e) j)
