-- ===== src/Auth/Session.antt =====
-- The session that the interface shows, and the refresh requests that are sent for it.
use otel_hive.Base.{
  ℕ, suc, ◌+◌, ◌≤◌, ◌≡◌, ◌≢◌, ◌⊎◌, Option, none, some, List, [], ◌∷◌, get_elem?, arith,
}
use otel_hive.Api.{Response, Reader}
use otel_hive.Auth.{
  authenticated, TokenPair, Task, sent, waiting, resent, settled, Refresh, idle, in_flight, stuck,
  left_null, Client, Event, register, send, answer, refresh_answer, login_done, me_done,
  logout_done, join_refresh, answer_first, answer_task, step, run, store_tokens, end_session,
  finish_refresh,
}
use otel_hive.Auth.Moves.{
  Move, stays, registers, sends, settles, leaves_null, starts, joins, sticks, fails, renews,
  logs_in, knows, ends, step-Move,
}

-- The three entries of the storage are there together or not at all, and a session that counts as
-- authenticated has its user.
pub record IsConsistent {J U : Type 0} (c : Client J U) : Type 0 where
  pub together :
      (c.access_token ≡ none) × (c.refresh_token ≡ none) × (c.expires_at ≡ none)
      ⊎ (c.access_token ≢ none) × (c.refresh_token ≢ none) × (c.expires_at ≢ none)
  pub known : c.status ≡ authenticated → c.user ≢ none

-- The refresh promise is not settled.
abbrev pub pending : Refresh → ℕ
pending idle = 0
pending in_flight = 1
pending stuck = 1
pending left_null = 0

abbrev pub refresh_answers : {J U : Type 0} → List (Event J U) → ℕ
refresh_answers [] = 0
refresh_answers (refresh_answer now a ∷ es) = suc (refresh_answers es)
refresh_answers (e ∷ es) = refresh_answers es

pending-le-one : (s : Refresh) → pending s ≤ 1
pending-le-one idle = omega arith
pending-le-one s = omega arith

module _ {J U : Type 0} where
  refresh_answers-cons :
      (e : Event J U) (es : List (Event J U))
      → refresh_answers (e ∷ es) ≡ refresh_answers (e ∷ []) + refresh_answers es
  refresh_answers-cons (refresh_answer now a) es = omega arith
  refresh_answers-cons e es = omega arith

module _ {J U : Type 0} (read : Reader J) (tokens_of : J → Option TokenPair) where
  Move-IsConsistent : {c d : Client J U} → Move read tokens_of c d → IsConsistent c → IsConsistent d
  unfolding finish_refresh store_tokens end_session
  Move-IsConsistent stays h = h
  Move-IsConsistent registers h = ground arith
  Move-IsConsistent sends h = ground arith
  Move-IsConsistent (settles i o p) h = ground arith
  Move-IsConsistent (leaves_null i o p e f) h = ground arith
  Move-IsConsistent (starts i r p e) h = ground arith
  Move-IsConsistent (joins i r p e) h = ground arith
  Move-IsConsistent (sticks e) h = ground arith
  Move-IsConsistent (fails e) h = ground arith
  Move-IsConsistent (renews now t e) h = ground arith
  Move-IsConsistent (logs_in now t) h = ground arith
  Move-IsConsistent (knows me) h = ground arith
  Move-IsConsistent ends h = ground arith

  -- In every order of events the storage holds all three entries or none, and no authenticated
  -- session is without a user, when this holds at first.
  pub run-IsConsistent :
      (c : Client J U) (es : List (Event J U))
      → IsConsistent c
      → IsConsistent (run read tokens_of c es)
  unfolding run
  run-IsConsistent c [] h = h
  run-IsConsistent c (e ∷ es) h =
      run-IsConsistent (step read tokens_of c e) es
        (Move-IsConsistent (step-Move read tokens_of c e) h)

  -- What one step may do to the count of refresh requests.
  abbrev pub Counts : Client J U → Client J U → ℕ → Type 0
  Counts c d answers = d.refreshes + pending c.refresh ≤ c.refreshes + pending d.refresh + answers

  Move-Counts : {c d : Client J U} → Move read tokens_of c d → Counts c d 1
  unfolding finish_refresh store_tokens end_session
  Move-Counts {c} stays = omega arith
  Move-Counts registers = omega arith
  Move-Counts sends = omega arith
  Move-Counts (settles i o p) = omega arith
  Move-Counts (leaves_null i o p e f) = ground arith
  Move-Counts (starts i r p e) = ground arith
  Move-Counts (joins i r p e) = omega arith
  Move-Counts (sticks e) = ground arith
  Move-Counts (fails e) = ground arith
  Move-Counts (renews now t e) = ground arith
  Move-Counts (logs_in now t) = omega arith
  Move-Counts (knows me) = omega arith
  Move-Counts ends = omega arith

  answer_task-Counts :
      (i : ℕ) (a : Option (Response J)) (t : Option (Task J)) (c : Client J U)
      → Counts c (answer_task read tokens_of i a t c) 0
  unfolding answer_task answer_first join_refresh
  answer_task-Counts i none (some (sent b)) c = omega arith
  answer_task-Counts i (some r) (some (sent b)) c = ground arith
  answer_task-Counts i a (some (resent b)) c = omega arith
  answer_task-Counts i a (some (waiting r)) c = omega arith
  answer_task-Counts i a (some (settled o)) c = omega arith
  answer_task-Counts i a none c = omega arith

  step-Counts :
      (c : Client J U) (e : Event J U)
      → Counts c (step read tokens_of c e) (refresh_answers (e ∷ []))
  unfolding step store_tokens end_session
  step-Counts c register = omega arith
  step-Counts c send = omega arith
  step-Counts c (answer i a) = answer_task-Counts i a (get_elem? c.tasks i) c
  step-Counts c (refresh_answer now a) =
      Move-Counts (step-Move read tokens_of c (refresh_answer now a))
  step-Counts c (login_done now t) = omega arith
  step-Counts c (me_done (some me)) = omega arith
  step-Counts c (me_done none) = omega arith
  step-Counts c logout_done = omega arith

  run-Counts :
      (c : Client J U) (es : List (Event J U))
      → Counts c (run read tokens_of c es) (refresh_answers es)
  unfolding run
  run-Counts c [] = omega arith
  run-Counts c (e ∷ es) =
      omega
        (arith, step-Counts c e, run-Counts (step read tokens_of c e) es, refresh_answers-cons e es)

  -- However many requests fail with 401 at once, there is at most one more refresh request than
  -- answers to them: no refresh is sent while one is under way.
  pub run_single_refresh :
      (c : Client J U) (es : List (Event J U))
      → (run read tokens_of c es).refreshes ≤ c.refreshes + refresh_answers es + 1
  run_single_refresh c es =
      omega (arith, run-Counts c es, pending-le-one (run read tokens_of c es).refresh)
