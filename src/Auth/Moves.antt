-- ===== src/Auth/Moves.antt =====
-- What an event can do to the client, as a relation, and that each step is one of these moves.
use otel_hive.Base.{
  ℕ, ◌+◌, ◌≡◌, refl, sym, subst, ◌⊎◌, inl, inr, true, ◌&&◌, Option, none, some, [], ◌∷◌, ◌++◌,
  get_elem?, arith, ◌==◌, Option-cases, Bool-cases,
}
use otel_hive.Text.{truthy}
use otel_hive.Api.{
  Response, Outcome, resolved, no_content, rejected, bad_json, navigating, unreachable, Reader,
  settle, settle_answer,
}
use otel_hive.Auth.{
  TokenPair, Task, sent, waiting, resent, settled, Refresh, idle, in_flight, stuck, left_null,
  Client, Event, register, send, answer, refresh_answer, login_done, me_done, logout_done, set,
  bearer, join_refresh, answer_first, answer_task, finish_refresh, refresh_outcome, answer_refresh,
  step, store_tokens, end_session, unauthenticated, authenticated,
}

-- The request awaits an answer; its first one.
abbrev pub IsOpen : {J : Type 0} → Option (Task J) → Type 0
IsOpen none = ⊥
IsOpen (some (sent a)) = Unit
IsOpen (some (waiting r)) = ⊥
IsOpen (some (resent a)) = Unit
IsOpen (some (settled o)) = ⊥

abbrev pub IsFirst : {J : Type 0} → Option (Task J) → Type 0
IsFirst none = ⊥
IsFirst (some (sent a)) = Unit
IsFirst (some (waiting r)) = ⊥
IsFirst (some (resent a)) = ⊥
IsFirst (some (settled o)) = ⊥

IsFirst-IsOpen : {J : Type 0} (t : Option (Task J)) → IsFirst t → IsOpen t
IsFirst-IsOpen none h = h
IsFirst-IsOpen (some (sent a)) h = tt
IsFirst-IsOpen (some (waiting r)) h = h
IsFirst-IsOpen (some (resent a)) h = tt
IsFirst-IsOpen (some (settled o)) h = h

module _ {J U : Type 0} (read : Reader J) (tokens_of : J → Option TokenPair) where
  pub data Move (c : Client J U) : Client J U → Type 0 where
    stays : Move c c
    registers : Move c (record c { registered = true })
    sends : Move c (record c { tasks = c.tasks ++ sent (bearer none c.access_token) ∷ [] })
    settles :
        (i : ℕ) (o : Outcome J)
        → IsOpen (get_elem? c.tasks i)
        → Move c (record c { tasks = set c.tasks i (settled o) })
    leaves_null :
        (i : ℕ) (o : Outcome J)
        → IsFirst (get_elem? c.tasks i)
        → c.refresh ≡ idle
        → truthy c.refresh_token ≡ none
        → Move c (record c {
          status = unauthenticated;
          refresh = left_null;
          tasks = set c.tasks i (settled o);
        })
    starts :
        (i : ℕ) (r : Response J)
        → IsFirst (get_elem? c.tasks i)
        → c.refresh ≡ idle
        → Move c (record c {
          refresh = in_flight;
          refreshes = c.refreshes + 1;
          tasks = set c.tasks i (waiting r);
        })
    joins :
        (i : ℕ) (r : Response J)
        → IsFirst (get_elem? c.tasks i)
        → (c.refresh ≡ in_flight) ⊎ (c.refresh ≡ stuck)
        → Move c (record c { tasks = set c.tasks i (waiting r) })
    sticks : c.refresh ≡ in_flight → Move c (record c { refresh = stuck })
    fails : c.refresh ≡ in_flight → Move c (finish_refresh read tokens_of none (end_session c))
    renews :
        (now : ℕ) (t : TokenPair)
        → c.refresh ≡ in_flight
        → Move c (finish_refresh read tokens_of (some t.access_token) (store_tokens now t c))
    logs_in : (now : ℕ) (t : TokenPair) → Move c (store_tokens now t c)
    knows : (me : U) → Move c (record c { user = some me; status = authenticated })
    ends : Move c (end_session c)

  -- A 401 to a request that was not sent again yet.
  join_Move :
      (i : ℕ) (r : Response J) (c : Client J U) (s : Refresh)
      → IsFirst (get_elem? c.tasks i)
      → c.refresh ≡ s
      → (r.status == 401 && c.registered) ≡ true
      → Move c (answer_first read tokens_of i (some r) c)
  unfolding answer_first join_refresh
  join_Move i r c idle first e h = elim (Option-cases (truthy c.refresh_token)) [
    | inl f ↦ subst (Move c) (ground arith) (leaves_null i (settle read r) first e f)
    | inr (t, f) ↦ subst (Move c) (ground arith) (starts i r first e)
  ]
  join_Move i r c in_flight first e h = subst (Move c) (ground arith) (joins i r first (inl e))
  join_Move i r c stuck first e h = subst (Move c) (ground arith) (joins i r first (inr e))
  join_Move i r c left_null first e h =
      subst (Move c) (ground arith) (settles i (settle read r) (IsFirst-IsOpen _ first))

  answer_first-Move :
      (i : ℕ) (a : Option (Response J)) (c : Client J U)
      → IsFirst (get_elem? c.tasks i)
      → Move c (answer_first read tokens_of i a c)
  unfolding answer_first
  answer_first-Move i none c first = settles i unreachable (IsFirst-IsOpen _ first)
  answer_first-Move i (some r) c first = elim (Bool-cases (r.status == 401 && c.registered)) [
    | inl h ↦ join_Move i r c c.refresh first refl h
    | inr h ↦ subst (Move c) (ground arith) (settles i (settle read r) (IsFirst-IsOpen _ first))
  ]

  answer_task-Move :
      (i : ℕ) (a : Option (Response J)) (t : Option (Task J)) (c : Client J U)
      → get_elem? c.tasks i ≡ t
      → Move c (answer_task read tokens_of i a t c)
  unfolding answer_task
  answer_task-Move i a (some (sent _)) c h = answer_first-Move i a c (subst IsFirst (sym h) tt)
  answer_task-Move i a (some (resent _)) c h =
      settles i (settle_answer read a) (subst IsOpen (sym h) tt)
  answer_task-Move i a (some (waiting _)) c h = stays
  answer_task-Move i a (some (settled _)) c h = stays
  answer_task-Move i a none c h = stays

  refresh_outcome-Move :
      (now : ℕ) (o : Outcome J) (c : Client J U)
      → c.refresh ≡ in_flight
      → Move c (refresh_outcome read tokens_of now o c)
  unfolding refresh_outcome
  refresh_outcome-Move now (resolved j) c h = elim (Option-cases (tokens_of j)) [
    | inl e ↦ subst (Move c) (ground arith) (fails h)
    | inr (t, e) ↦ subst (Move c) (ground arith) (renews now t h)
  ]
  refresh_outcome-Move now navigating c h = sticks h
  refresh_outcome-Move now no_content c h = fails h
  refresh_outcome-Move now (rejected message status) c h = fails h
  refresh_outcome-Move now bad_json c h = fails h
  refresh_outcome-Move now unreachable c h = fails h

  answer_refresh-Move :
      (now : ℕ) (a : Option (Response J)) (c : Client J U)
      → c.refresh ≡ in_flight
      → Move c (answer_refresh read tokens_of now a c)
  unfolding answer_refresh
  answer_refresh-Move now none c h = refresh_outcome-Move now unreachable c h
  answer_refresh-Move now (some r) c h = elim (Bool-cases (r.status == 401 && c.registered)) [
    | inl e ↦ subst (Move c) (ground arith) (sticks h)
    | inr e ↦ subst (Move c) (ground arith) (refresh_outcome-Move now (settle read r) c h)
  ]

  refresh_answer-Move :
      (now : ℕ) (a : Option (Response J)) (c : Client J U) (s : Refresh)
      → c.refresh ≡ s
      → Move c (step read tokens_of c (refresh_answer now a))
  unfolding step
  refresh_answer-Move now a c in_flight h =
      subst (Move c) (ground arith) (answer_refresh-Move now a c h)
  refresh_answer-Move now a c idle h = subst (Move c) (ground arith) stays
  refresh_answer-Move now a c stuck h = subst (Move c) (ground arith) stays
  refresh_answer-Move now a c left_null h = subst (Move c) (ground arith) stays

  -- Every event makes one of the moves.
  pub step-Move : (c : Client J U) (e : Event J U) → Move c (step read tokens_of c e)
  unfolding step
  step-Move c register = registers
  step-Move c send = sends
  step-Move c (answer i a) = answer_task-Move i a (get_elem? c.tasks i) c refl
  step-Move c (refresh_answer now a) = refresh_answer-Move now a c c.refresh refl
  step-Move c (login_done now t) = logs_in now t
  step-Move c (me_done (some me)) = knows me
  step-Move c (me_done none) = ends
  step-Move c logout_done = ends
