-- ===== src/Query/History.antt =====
-- The history of the query editor, and its flag for a query under way.
use otel_hive.Base.{
  ℕ, ◌≤◌, ◌≡◌, ◌≢◌, refl, ◌⊎◌, inl, inr, false, Option, none, some, List, [], ◌∷◌, ◌++◌, length,
  take, length-take-le, get_elem?, arith,
}
use otel_hive.Text.{Text, trim}
use otel_hive.Query.{
  Editor, Event, set_query, execute, answered, failed, clear_results, clear_history, either, start,
  finish, fail, item, step, run,
}

-- The history is short, and the editor shows a query as running only if one is.
pub record IsSound {R : Type 0} (s : Editor R) : Type 0 where
  pub short : length s.history ≤ 50
  pub running : (s.is_executing ≡ false) ⊎ (s.pending ≢ [])

append-ne-nil : (xs : List Text) (x : Text) → xs ++ x ∷ [] ≢ []
append-ne-nil [] x e = cc
append-ne-nil (y ∷ ys) x e = cc

module _ {R : Type 0} (time_of rows_of : R → ℕ) where
  start-IsSound :
      (trimmed q : Text) (s : Editor R) → IsSound s → IsSound (start time_of rows_of trimmed q s)
  unfolding start
  start-IsSound [] q s h = record { short = h.short; running = h.running }
  start-IsSound (c ∷ t) q s h = record {
    short = h.short;
    running = inr (append-ne-nil s.pending q);
  }

  finish-IsSound :
      (i now : ℕ) (r : R) (q : Option Text) (s : Editor R)
      → IsSound s
      → IsSound (finish time_of rows_of i now r q s)
  unfolding finish
  finish-IsSound i now r none s h = h
  finish-IsSound i now r (some q) s h = record {
    short = omega (arith, length-take-le 49 s.history);
    running = inl refl;
  }

  fail-IsSound :
      (i : ℕ) (thrown q : Option Text) (s : Editor R)
      → IsSound s
      → IsSound (fail time_of rows_of i thrown q s)
  unfolding fail
  fail-IsSound i thrown none s h = h
  fail-IsSound i thrown (some q) s h = record { short = h.short; running = inl refl }

  step-IsSound : (s : Editor R) (e : Event R) → IsSound s → IsSound (step time_of rows_of s e)
  unfolding step
  step-IsSound s (set_query q) h = record { short = h.short; running = h.running }
  step-IsSound s (execute custom) h =
      start-IsSound (trim (either custom s.query)) (either custom s.query) s h
  step-IsSound s (answered i now r) h = finish-IsSound i now r (get_elem? s.pending i) s h
  step-IsSound s (failed i thrown) h = fail-IsSound i thrown (get_elem? s.pending i) s h
  step-IsSound s clear_results h = record { short = h.short; running = h.running }
  step-IsSound s clear_history h = record { short = omega arith; running = h.running }

  -- In every order of events the history holds at most 50 items, and the editor shows a query as
  -- running only if one is, when this holds at first.
  pub run-IsSound :
      (s : Editor R) (es : List (Event R)) → IsSound s → IsSound (run time_of rows_of s es)
  unfolding run
  run-IsSound s [] h = h
  run-IsSound s (e ∷ es) h = run-IsSound (step time_of rows_of s e) es (step-IsSound s e h)

  -- A query that is answered, whichever ends first, stands first in the history and its answer is
  -- shown; the 49 items before it are kept.
  pub answered_lem :
      (s : Editor R) (i now : ℕ) (r : R) (q : Text)
      → get_elem? s.pending i ≡ some q
      → let after = step time_of rows_of s (answered i now r) in
        (after.results ≡ some r)
        × (after.history ≡ item time_of rows_of q now r ∷ take 49 s.history)
        × (after.is_executing ≡ false)
  unfolding step
  answered_lem s i now r q h = rw h (refl, refl, refl)
