-- ===== src/Navigation/Parts.antt =====
-- utils.ts: the parts that a text of cookies is split into.
use otel_hive.Base.{
  ◌≡◌, ◌≢◌, refl, sym, ap, ◌∙◌, ℕ, ◌-◌, true, false, List, [], ◌∷◌, ◌++◌, length, All, All-append,
  ◌==◌, ◌&&◌, append_assoc, append-nil, arith,
}
use otel_hive.Text.{Text, text_eq, starts_with}
use otel_hive.Text.Laws.{text_eq_refl}
use otel_hive.Navigation.{parts_from, separator}

-- Text without a code unit.
abbrev pub Lacks : ℕ → Text → Type 0
Lacks d s = All (λ c. c ≢ d) s

-- `document.cookie`: `name=value` for each cookie, with `; ` between them.
abbrev pub more_cookies : List (Text × Text) → Text
more_cookies [] = []
more_cookies ((k, v) ∷ jar) = b';' ∷ b' ' ∷ (k ++ (b'=' ∷ (v ++ more_cookies jar)))

abbrev pub cookie_text : List (Text × Text) → Text
cookie_text [] = []
cookie_text ((k, v) ∷ jar) = k ++ (b'=' ∷ (v ++ more_cookies jar))

-- A cookie that is written as it is and has another name.
abbrev pub IsOther : Text → Text × Text → Type 0
IsOther name (k, v) = (text_eq k name ≡ false) × Lacks 59 k × Lacks 61 k × Lacks 59 v

starts_with_key :
    (k name rest : Text)
    → Lacks 61 k
    → Lacks 61 name
    → starts_with (k ++ (61 ∷ rest)) (name ++ (61 ∷ [])) ≡ text_eq k name
unfolding starts_with text_eq
starts_with_key [] [] rest h j = refl
starts_with_key [] (d ∷ name) rest h j = ground arith
starts_with_key (c ∷ k) [] rest h j = ground arith
starts_with_key (c ∷ k) (d ∷ name) rest h j =
    ap (λ b. c == d && b) (starts_with_key k name rest h.1 j.1)

-- The parts of a text with a further beginning.
abbrev pub onto : Text → Text × List Text → Text × List Text
onto s (part, parts) = (s ++ part, parts)

onto_append : (s t : Text) (p : Text × List Text) → onto s (onto t p) ≡ onto (s ++ t) p
onto_append s t (part, parts) = ap (λ q. (q, parts)) (sym (append_assoc s t part))

module _ (name : Text) where
  abbrev pub sep : Text
  sep = separator name

  parts_go_on :
      (c : ℕ) (s : Text)
      → starts_with (c ∷ s) sep ≡ false
      → parts_from sep 0 (c ∷ s) ≡ onto (c ∷ []) (parts_from sep 0 s)
  unfolding parts_from
  parts_go_on c s h = rw (h, parts_from) refl

  parts_end :
      (c : ℕ) (s : Text)
      → starts_with (c ∷ s) sep ≡ true
      → parts_from sep 0 (c ∷ s)
        ≡ ([], (let (part, parts) = parts_from sep (length sep - 1) s in part ∷ parts))
  unfolding parts_from
  parts_end c s h = rw (h, parts_from) refl

  plain_parts :
      (s rest : Text) → Lacks 59 s → parts_from sep 0 (s ++ rest) ≡ onto s (parts_from sep 0 rest)
  unfolding starts_with
  plain_parts [] rest h = refl
  plain_parts (c ∷ s) rest h =
      let no : (c == 59) ≡ false = ground arith in
      parts_go_on c (s ++ rest) (rw no refl) ∙ ap (onto (c ∷ [])) (plain_parts s rest h.1)

  skipped : (s rest : Text) → parts_from sep (length s) (s ++ rest) ≡ parts_from sep 0 rest
  unfolding parts_from
  skipped [] rest = refl
  skipped (c ∷ s) rest = skipped s rest

  other_parts :
      (k v rest : Text)
      → Lacks 61 name
      → IsOther name (k, v)
      → parts_from sep 0 (59 ∷ 32 ∷ (k ++ (61 ∷ (v ++ rest))))
        ≡ onto (59 ∷ 32 ∷ (k ++ (61 ∷ v))) (parts_from sep 0 rest)
  unfolding starts_with
  other_parts k v rest j (differs, no_mark, no_sign, no_end) =
      let before : Text = 32 ∷ (k ++ (61 ∷ v)) in
      let lacks : Lacks 59 before = (
        (λ e. omega (arith, e)),
        All-append (λ c. c ≢ 59) k (61 ∷ v) no_mark ((λ e. omega (arith, e)), no_end),
      ) in
      parts_go_on 59 (32 ∷ (k ++ (61 ∷ (v ++ rest))))
        (starts_with_key k name (v ++ rest) no_sign j ∙ differs)
      ∙ ap (λ t. onto (59 ∷ []) (parts_from sep 0 t))
          (ap (◌∷◌ 32) (sym (append_assoc k (61 ∷ v) rest)))
      ∙ ap (onto (59 ∷ [])) (plain_parts before rest lacks)

  pub others_parts :
      (jar after : List (Text × Text))
      → Lacks 61 name
      → All (IsOther name) jar
      → parts_from sep 0 (more_cookies (jar ++ after))
        ≡ onto (more_cookies jar) (parts_from sep 0 (more_cookies after))
  others_parts [] after j h = refl
  others_parts ((k, v) ∷ jar) after j h =
      let whole = other_parts k v (more_cookies (jar ++ after)) j h.0 in
      let more = others_parts jar after j h.1 in
      let entry : Text = 59 ∷ 32 ∷ (k ++ (61 ∷ v)) in
      let joined : entry ++ more_cookies jar ≡ more_cookies ((k, v) ∷ jar) =
        ap (λ t. 59 ∷ 32 ∷ t) (append_assoc k (61 ∷ v) (more_cookies jar)) in
      whole
      ∙ ap (onto entry) more
      ∙ onto_append entry (more_cookies jar) (parts_from sep 0 (more_cookies after))
      ∙ ap (λ t. onto t (parts_from sep 0 (more_cookies after))) joined

  pub parts_of_cookies :
      (jar : List (Text × Text))
      → Lacks 61 name
      → All (IsOther name) jar
      → parts_from sep 0 (more_cookies jar) ≡ (more_cookies jar, [])
  unfolding parts_from
  parts_of_cookies jar j h =
      ap (λ l. parts_from sep 0 (more_cookies l)) (sym (append-nil jar))
      ∙ others_parts jar [] j h
      ∙ ap (λ t. (t, [])) (append-nil (more_cookies jar))

  pub found_parts :
      (v : Text) (after : List (Text × Text))
      → Lacks 61 name
      → Lacks 59 v
      → All (IsOther name) after
      → parts_from sep 0 (more_cookies ((name, v) ∷ after)) ≡ ([], (v ++ more_cookies after) ∷ [])
  unfolding starts_with
  found_parts v after j lacks h =
      let rest : Text = v ++ more_cookies after in
      let key : Text = 32 ∷ (name ++ (61 ∷ [])) in
      let value : parts_from sep (length sep - 1) (32 ∷ (name ++ (61 ∷ rest))) ≡ (rest, []) =
        ap (λ n. parts_from sep n (32 ∷ (name ++ (61 ∷ rest)))) (omega arith)
        ∙ ap (λ t. parts_from sep (length key) (32 ∷ t)) (sym (append_assoc name (61 ∷ []) rest))
        ∙ skipped key rest
        ∙ plain_parts v (more_cookies after) lacks
        ∙ ap (onto v) (parts_of_cookies after j h) in
      parts_end 59 (32 ∷ (name ++ (61 ∷ rest)))
        (starts_with_key name name rest j j ∙ text_eq_refl name)
      ∙ ap (λ (p : Text × List Text). ([], p.0 ∷ p.1)) value
