-- ===== src/Auth/DeadRefresh.antt =====
-- Two states that the silent refresh does not leave.
use otel_hive.Base.{
  ℕ, zero, suc, ◌≡◌, refl, sym, subst, ◌∙◌, true, Option, none, some, List, [], ◌∷◌, ◌++◌,
  get_elem?, arith,
}
use otel_hive.Text.{Text, truthy}
use otel_hive.Api.{Response, Reader}
use otel_hive.Auth.{
  TokenPair, Task, sent, waiting, idle, in_flight, stuck, left_null, Client, Event, answer,
  refresh_answer, set, join_refresh, answer_first, answer_task, answer_refresh, step, run,
  store_tokens, end_session,
}
use otel_hive.Auth.Moves.{
  Move, IsOpen, IsFirst, stays, registers, sends, settles, leaves_null, starts, joins, sticks,
  fails, renews, logs_in, knows, ends, step-Move,
}

idle_not_stuck : ¬ (idle ≡ stuck)
idle_not_stuck e = cc

in_flight_not_stuck : ¬ (in_flight ≡ stuck)
in_flight_not_stuck e = cc

idle_not_left : ¬ (idle ≡ left_null)
idle_not_left e = cc

in_flight_not_left : ¬ (in_flight ≡ left_null)
in_flight_not_left e = cc

-- The refresh never settles, and the request `i` waits for it.
pub record IsDeadlocked {J U : Type 0} (i : ℕ) (c : Client J U) : Type 0 where
  pub never : c.refresh ≡ stuck
  pub answer_kept : Response J
  pub waits : get_elem? c.tasks i ≡ some (waiting answer_kept)

get_elem?-snoc :
    {A : Type 0} (xs : List A) (i : ℕ) {a : A} (b : A)
    → get_elem? xs i ≡ some a
    → get_elem? (xs ++ b ∷ []) i ≡ some a
get_elem?-snoc [] i b h = cc
get_elem?-snoc (x ∷ xs) zero b h = h
get_elem?-snoc (x ∷ xs) (suc i) b h = get_elem?-snoc xs i b h

-- Writing to an open request leaves a waiting one alone.
get_elem?-set_other :
    {J : Type 0} (P : Option (Task J) → Type 0) (xs : List (Task J)) (i j : ℕ) (v : Task J)
    {r : Response J}
    → (P (some (waiting r)) → ⊥)
    → get_elem? xs i ≡ some (waiting r)
    → P (get_elem? xs j)
    → get_elem? (set xs j v) i ≡ some (waiting r)
get_elem?-set_other P [] i j v no_P h p = cc
get_elem?-set_other P (x ∷ xs) zero zero v no_P h p = absurd (no_P (subst P h p))
get_elem?-set_other P (x ∷ xs) zero (suc j) v no_P h p = h
get_elem?-set_other P (x ∷ xs) (suc i) zero v no_P h p = h
get_elem?-set_other P (x ∷ xs) (suc i) (suc j) v no_P h p = get_elem?-set_other P xs i j v no_P h p

module _ {J U : Type 0} (read : Reader J) (tokens_of : J → Option TokenPair) where
  Move-IsDeadlocked :
      {c d : Client J U} (i : ℕ) → Move read tokens_of c d → IsDeadlocked i c → IsDeadlocked i d
  unfolding store_tokens end_session
  Move-IsDeadlocked i stays h = h
  Move-IsDeadlocked i registers h = record {
    never = h.never;
    answer_kept = h.answer_kept;
    waits = h.waits;
  }
  Move-IsDeadlocked {c} i sends h = record {
    never = h.never;
    answer_kept = h.answer_kept;
    waits = get_elem?-snoc c.tasks i _ h.waits;
  }
  Move-IsDeadlocked {c} i (settles j o p) h = record {
    never = h.never;
    answer_kept = h.answer_kept;
    waits = get_elem?-set_other IsOpen c.tasks i j _ (λ b. b) h.waits p;
  }
  Move-IsDeadlocked i (leaves_null j o p e f) h = absurd (idle_not_stuck (sym e ∙ h.never))
  Move-IsDeadlocked i (starts j r p e) h = absurd (idle_not_stuck (sym e ∙ h.never))
  Move-IsDeadlocked {c} i (joins j r p e) h = record {
    never = h.never;
    answer_kept = h.answer_kept;
    waits = get_elem?-set_other IsFirst c.tasks i j _ (λ b. b) h.waits p;
  }
  Move-IsDeadlocked i (sticks e) h = absurd (in_flight_not_stuck (sym e ∙ h.never))
  Move-IsDeadlocked i (fails e) h = absurd (in_flight_not_stuck (sym e ∙ h.never))
  Move-IsDeadlocked i (renews now t e) h = absurd (in_flight_not_stuck (sym e ∙ h.never))
  Move-IsDeadlocked i (logs_in now t) h = record {
    never = h.never;
    answer_kept = h.answer_kept;
    waits = h.waits;
  }
  Move-IsDeadlocked i (knows me) h = record {
    never = h.never;
    answer_kept = h.answer_kept;
    waits = h.waits;
  }
  Move-IsDeadlocked i ends h = record {
    never = h.never;
    answer_kept = h.answer_kept;
    waits = h.waits;
  }

  run-IsDeadlocked :
      (i : ℕ) (c : Client J U) (es : List (Event J U))
      → IsDeadlocked i c
      → IsDeadlocked i (run read tokens_of c es)
  unfolding run
  run-IsDeadlocked i c [] h = h
  run-IsDeadlocked i c (e ∷ es) h =
      run-IsDeadlocked i (step read tokens_of c e) es
        (Move-IsDeadlocked i (step-Move read tokens_of c e) h)

  refresh_401-IsDeadlocked :
      (i now : ℕ) (c : Client J U) (kept r : Response J)
      → c.registered ≡ true
      → c.refresh ≡ in_flight
      → get_elem? c.tasks i ≡ some (waiting kept)
      → r.status ≡ 401
      → IsDeadlocked i (step read tokens_of c (refresh_answer now (some r)))
  unfolding step answer_refresh
  refresh_401-IsDeadlocked i now c kept r reg fl w s = record {
    never = ground arith;
    answer_kept = kept;
    waits = ground arith;
  }

  -- When the server answers the refresh request itself with 401 while a refresh function is
  -- registered, as for a refresh token that has expired, each request that waits for the refresh waits for ever, whatever happens next.
  pub refresh_401_deadlock :
      (i now : ℕ) (c : Client J U) (kept r : Response J) (es : List (Event J U))
      → c.registered ≡ true
      → c.refresh ≡ in_flight
      → get_elem? c.tasks i ≡ some (waiting kept)
      → r.status ≡ 401
      → IsDeadlocked i (run read tokens_of (step read tokens_of c (refresh_answer now (some r))) es)
  refresh_401_deadlock i now c kept r es reg fl w s =
      run-IsDeadlocked i _ es (refresh_401-IsDeadlocked i now c kept r reg fl w s)

  -- No refresh request is sent any more, and the settled promise is still there.
  abbrev pub IsDisabled : ℕ → Client J U → Type 0
  IsDisabled sent_so_far c = (c.refresh ≡ left_null) × (c.refreshes ≡ sent_so_far)

  Move-IsDisabled :
      {c d : Client J U} (n : ℕ) → Move read tokens_of c d → IsDisabled n c → IsDisabled n d
  unfolding store_tokens end_session
  Move-IsDisabled n stays h = h
  Move-IsDisabled n registers h = h
  Move-IsDisabled n sends h = h
  Move-IsDisabled n (settles j o p) h = h
  Move-IsDisabled n (leaves_null j o p e f) h = (refl, h.1)
  Move-IsDisabled n (starts j r p e) h = absurd (idle_not_left (sym e ∙ h.0))
  Move-IsDisabled n (joins j r p e) h = h
  Move-IsDisabled n (sticks e) h = absurd (in_flight_not_left (sym e ∙ h.0))
  Move-IsDisabled n (fails e) h = absurd (in_flight_not_left (sym e ∙ h.0))
  Move-IsDisabled n (renews now t e) h = absurd (in_flight_not_left (sym e ∙ h.0))
  Move-IsDisabled n (logs_in now t) h = h
  Move-IsDisabled n (knows me) h = h
  Move-IsDisabled n ends h = h

  run-IsDisabled :
      (n : ℕ) (c : Client J U) (es : List (Event J U))
      → IsDisabled n c
      → IsDisabled n (run read tokens_of c es)
  unfolding run
  run-IsDisabled n c [] h = h
  run-IsDisabled n c (e ∷ es) h =
      run-IsDisabled n (step read tokens_of c e) es
        (Move-IsDisabled n (step-Move read tokens_of c e) h)

  first_401-IsDisabled :
      (i : ℕ) (c : Client J U) (a : Option Text) (r : Response J)
      → c.registered ≡ true
      → c.refresh ≡ idle
      → truthy c.refresh_token ≡ none
      → get_elem? c.tasks i ≡ some (sent a)
      → r.status ≡ 401
      → IsDisabled c.refreshes (step read tokens_of c (answer i (some r)))
  unfolding step answer_task answer_first join_refresh
  first_401-IsDisabled i c a r reg fl w t s = ground arith

  -- One 401 while no refresh token is stored, as for a wrong password, switches the silent refresh
  -- off: no refresh request is sent in any later course of events, logins included.
  pub refresh_disabled :
      (i : ℕ) (c : Client J U) (a : Option Text) (r : Response J) (es : List (Event J U))
      → c.registered ≡ true
      → c.refresh ≡ idle
      → truthy c.refresh_token ≡ none
      → get_elem? c.tasks i ≡ some (sent a)
      → r.status ≡ 401
      → (run read tokens_of (step read tokens_of c (answer i (some r))) es).refreshes ≡ c.refreshes
  refresh_disabled i c a r es reg fl w t s =
      (run-IsDisabled c.refreshes _ es (first_401-IsDisabled i c a r reg fl w t s)).1
