-- ===== src/Metrics/Keys.antt =====
-- AgentMetrics.tsx: the keys of `componentMap` tell the type and the name of a component.
use otel_hive.Base.{
  ◌≡◌, refl, sym, subst, ◌∙◌, Bool, true, false, ◌&&◌, Option, none, some, List, [], ◌∷◌, ◌++◌, inl,
  inr, Bool-cases, if◌then◌else◌, ◌==◌, arith,
}
use otel_hive.Text.{Text, text_eq, split}
use otel_hive.Text.Laws.{text_eq_refl}
use otel_hive.Grouping.{has_key}
use otel_hive.Components.{Section, receiver, processor, exporter}
use otel_hive.Metrics.{section_name, component_key, same_section, name_of_key}

-- The metric belongs to the component of that type and name.
abbrev pub is_of : Section → Text → Option Section × Text → Bool
is_of section name (none, other) = false
is_of section name (some type, []) = false
is_of section name (some type, c ∷ other) = same_section type section && text_eq (c ∷ other) name

abbrev pub key_of : Section → Text → Text
key_of section name = section_name section ++ (b':' ∷ name)

text_eq-key_of :
    (s t : Section) (m n : Text)
    → text_eq (key_of s m) (key_of t n) ≡ (same_section s t && text_eq m n)
unfolding text_eq
text_eq-key_of receiver receiver m n = refl
text_eq-key_of receiver processor m n = refl
text_eq-key_of receiver exporter m n = refl
text_eq-key_of processor receiver m n = refl
text_eq-key_of processor processor m n = refl
text_eq-key_of processor exporter m n = refl
text_eq-key_of exporter receiver m n = refl
text_eq-key_of exporter processor m n = refl
text_eq-key_of exporter exporter m n = refl

and_left : (a b : Bool) → (a && b) ≡ true → a ≡ true
and_left a b h = ground arith

-- Equal keys are of one type.
pub key_of-section :
    (s t : Section) (m n : Text) → key_of s m ≡ key_of t n → same_section s t ≡ true
key_of-section s t m n e =
    let same : text_eq (key_of s m) (key_of t n) ≡ true =
      subst (λ k. text_eq (key_of s m) k ≡ true) e (text_eq_refl (key_of s m)) in
    and_left (same_section s t) (text_eq m n) (sym (text_eq-key_of s t m n) ∙ same)

-- To have the key of a component is to belong to it.
pub has_key-is_of :
    (section : Section) (name : Text) (classified : Option Section × Text)
    → has_key (key_of section name) (component_key classified) ≡ is_of section name classified
has_key-is_of section name (none, other) = refl
has_key-is_of section name (some type, []) = refl
has_key-is_of section name (some type, c ∷ other) = text_eq-key_of type section (c ∷ other) name

pub same_section→eq : (s t : Section) → same_section s t ≡ true → s ≡ t
same_section→eq receiver receiver h = refl
same_section→eq processor processor h = refl
same_section→eq exporter exporter h = refl
same_section→eq receiver processor h = cc
same_section→eq receiver exporter h = cc
same_section→eq processor receiver h = cc
same_section→eq processor exporter h = cc
same_section→eq exporter receiver h = cc
same_section→eq exporter processor h = cc

pub same_section_refl : (s : Section) → same_section s s ≡ true
same_section_refl receiver = refl
same_section_refl processor = refl
same_section_refl exporter = refl

-- The name up to its first colon.
abbrev pub up_to_colon : Text → Text
up_to_colon [] = []
up_to_colon (c ∷ s) = if c == b':' then [] else c ∷ up_to_colon s

split-up_to_colon : (s : Text) → (rest : List Text) × (split b':' s ≡ up_to_colon s ∷ rest)
unfolding split
split-up_to_colon [] = ([], refl)
split-up_to_colon (c ∷ s) =
    let (rest, e) = split-up_to_colon s in
    elim (Bool-cases (c == b':')) [
      | inl h ↦ (up_to_colon s ∷ rest, rw (e, h) refl)
      | inr h ↦ (rest, rw (e, h) refl)
    ]

-- The name that is read back from a key.
pub name_of_key-key_of :
    (section : Section) (name : Text) → name_of_key (key_of section name) ≡ some (up_to_colon name)
unfolding split
name_of_key-key_of receiver name = let (rest, e) = split-up_to_colon name in rw e refl
name_of_key-key_of processor name = let (rest, e) = split-up_to_colon name in rw e refl
name_of_key-key_of exporter name = let (rest, e) = split-up_to_colon name in rw e refl
