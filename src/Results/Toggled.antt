-- ===== src/Results/Toggled.antt =====
-- QueryResults.tsx: which rows are expanded.
use otel_hive.Base.{
  ℕ, ◌≡◌, refl, ap, ◌∙◌, inl, inr, Bool, true, false, not, ◌||◌, List, [], ◌∷◌, ◌++◌, ◌==◌,
  if◌then◌else◌, Bool-cases, arith,
}
use otel_hive.Results.{
  ResultsState, ResultsEvent, set_active_view, toggle, new_results, has, remove,
  toggle_row_expansion, results_run,
}

has-append : (i j : ℕ) (js : List ℕ) → has i (js ++ (j ∷ [])) ≡ (has i js || (j == i))
unfolding has
has-append i j [] = ground arith
has-append i j (k ∷ js) = ground (arith, has-append i j js)

has-remove : (i j : ℕ) (js : List ℕ) → has i (remove j js) ≡ (if j == i then false else has i js)
unfolding has
has-remove i j [] = ground arith
has-remove i j (k ∷ js) = ground (arith, has-remove i j js)

-- A row that is in the set leaves it, and another comes in.
toggled :
    (i j : ℕ) (js : List ℕ) (b : Bool)
    → has j js ≡ b
    → (if b then (if j == i then false else has i js) else (has i js || (j == i)))
      ≡ (if j == i then not (has i js) else has i js)
unfolding has
toggled i j js true e = ground arith
toggled i j js false e = ground arith

has-toggle :
    (i j : ℕ) (js : List ℕ)
    → has i (toggle_row_expansion j js) ≡ (if j == i then not (has i js) else has i js)
unfolding toggle_row_expansion
has-toggle i j js = elim (Bool-cases (has j js)) [
  | inl e ↦ rw (e, has-remove i j js) (toggled i j js true e)
  | inr e ↦ rw (e, has-append i j js) (toggled i j js false e)
]

module _ {N O : Type 0} where
  -- Whether row `i` is expanded after the presses, where `b` says it of the row before them.
  abbrev pub pressed : ℕ → List (ResultsEvent N O) → Bool → Bool
  pressed i [] b = b
  pressed i (set_active_view view ∷ es) b = pressed i es b
  pressed i (toggle j ∷ es) b = pressed i es (if j == i then not b else b)
  pressed i (new_results results ∷ es) b = pressed i es b

  -- A row is expanded exactly if its number was so before and its button was pressed an even number
  -- of times, or was not so and it was pressed an odd number of times, whichever results came meanwhile.
  pub has-results_run :
      (i : ℕ) (es : List (ResultsEvent N O)) (s : ResultsState)
      → has i (results_run s es).expanded_rows ≡ pressed i es (has i s.expanded_rows)
  unfolding results_run
  has-results_run i [] s = refl
  has-results_run i (set_active_view view ∷ es) s =
      has-results_run i es (record s { active_view = view })
  has-results_run i (toggle j ∷ es) s =
      has-results_run i es (record s { expanded_rows = toggle_row_expansion j s.expanded_rows })
      ∙ ap (pressed i es) (has-toggle i j s.expanded_rows)
  has-results_run i (new_results results ∷ es) s = has-results_run i es s
