-- ===== src/Auth/SilentRefresh.antt =====
-- The silent refresh: no request is left waiting without one, and one refresh at a time.
use otel_hive.Base.{
  get_elem?-map, ap, ◌∙◌, ℕ, zero, suc, ◌≡◌, ◌≢◌, refl, ◌⊎◌, inl, inr, Option, none, some, List, [],
  ◌∷◌, map, get_elem?, All, All-append, arith,
}
use otel_hive.Text.{Text}
use otel_hive.Api.{Response, resolved, Reader, settle}
use otel_hive.Auth.Moves.{
  Move, stays, registers, sends, settles, leaves_null, starts, joins, sticks, fails, renews,
  logs_in, knows, ends, step-Move,
}
use otel_hive.Auth.{
  TokenPair, Task, sent, waiting, resent, settled, idle, in_flight, stuck, Client, Event,
  refresh_answer, set, bearer, wake, finish_refresh, refresh_outcome, answer_refresh, step, run,
  store_tokens, end_session,
}

abbrev pub NotWaiting : {J : Type 0} → Task J → Type 0
NotWaiting (sent a) = Unit
NotWaiting (waiting r) = ⊥
NotWaiting (resent a) = Unit
NotWaiting (settled o) = Unit

-- A request waits only while a refresh is under way or stuck.
abbrev pub NoLostRequest : {J U : Type 0} → Client J U → Type 0
NoLostRequest c = (c.refresh ≡ in_flight) ⊎ (c.refresh ≡ stuck) ⊎ All NotWaiting c.tasks

All-set {ℓ κ} :
    {A : Type ℓ} (P : A → Type κ) (xs : List A) (i : ℕ) (v : A)
    → All P xs
    → P v
    → All P (set xs i v)
All-set P [] i v h p = tt
All-set P (x ∷ xs) zero v h p = (p, h.1)
All-set P (x ∷ xs) (suc i) v h p = (h.0, All-set P xs i v h.1 p)

module _ {J : Type 0} (read : Reader J) where
  wake-NotWaiting : (token : Option Text) (t : Task J) → NotWaiting (wake read token t)
  unfolding wake
  wake-NotWaiting token (waiting r) = ground arith
  wake-NotWaiting token t = ground arith

  wake-All-NotWaiting :
      (token : Option Text) (ts : List (Task J)) → All NotWaiting (map (wake read token) ts)
  wake-All-NotWaiting token [] = tt
  wake-All-NotWaiting token (t ∷ ts) = (wake-NotWaiting token t, wake-All-NotWaiting token ts)

  wake_resent :
      (t : TokenPair) (d : ℕ) (s : Text) (kept : Response J)
      → t.access_token ≡ d ∷ s
      → wake read (some t.access_token) (waiting kept) ≡ resent (some t.access_token)
  unfolding wake
  wake_resent t d s kept q = ground arith

module _ {J U : Type 0} (read : Reader J) (tokens_of : J → Option TokenPair) where
  Move-NoLostRequest :
      {c d : Client J U} → Move read tokens_of c d → NoLostRequest c → NoLostRequest d
  unfolding finish_refresh store_tokens end_session
  Move-NoLostRequest stays h = h
  Move-NoLostRequest registers h = h
  Move-NoLostRequest {c} sends h =
      ground (arith, All-append NotWaiting c.tasks (sent (bearer none c.access_token) ∷ []))
  Move-NoLostRequest {c} (settles i o _) h =
      ground (arith, All-set NotWaiting c.tasks i (settled o))
  Move-NoLostRequest {c} (leaves_null i o _ e f) h =
      ground (arith, All-set NotWaiting c.tasks i (settled o))
  Move-NoLostRequest (starts i r _ e) h = inl refl
  Move-NoLostRequest (joins i r _ (inl e)) h = inl e
  Move-NoLostRequest (joins i r _ (inr e)) h = inr (inl e)
  Move-NoLostRequest (sticks e) h = inr (inl refl)
  Move-NoLostRequest {c} (fails e) h = inr (inr (wake-All-NotWaiting read none c.tasks))
  Move-NoLostRequest {c} (renews now t e) h =
      inr (inr (wake-All-NotWaiting read (some t.access_token) c.tasks))
  Move-NoLostRequest (logs_in now t) h = h
  Move-NoLostRequest (knows me) h = h
  Move-NoLostRequest ends h = h

  -- In every order of events, a request waits only while a refresh is under way or stuck, when this
  -- holds at first.
  pub run-NoLostRequest :
      (c : Client J U) (es : List (Event J U))
      → NoLostRequest c
      → NoLostRequest (run read tokens_of c es)
  unfolding run
  run-NoLostRequest c [] h = h
  run-NoLostRequest c (e ∷ es) h =
      run-NoLostRequest (step read tokens_of c e) es
        (Move-NoLostRequest (step-Move read tokens_of c e) h)

  answered_step :
      (now : ℕ) (c : Client J U) (r : Response J) (j : J) (t : TokenPair)
      → c.refresh ≡ in_flight
      → r.status ≢ 401
      → settle read r ≡ resolved j
      → tokens_of j ≡ some t
      → step read tokens_of c (refresh_answer now (some r))
        ≡ finish_refresh read tokens_of (some t.access_token) (store_tokens now t c)
  unfolding step answer_refresh refresh_outcome
  answered_step now c r j t h n o p = ground arith

  finished :
      (i now : ℕ) (c : Client J U) (kept : Response J) (t : TokenPair) (d : ℕ) (s : Text)
      → get_elem? c.tasks i ≡ some (waiting kept)
      → t.access_token ≡ d ∷ s
      → let after = finish_refresh read tokens_of (some t.access_token) (store_tokens now t c) in
        (after.refresh ≡ idle)
        × (get_elem? after.tasks i ≡ some (resent (some t.access_token)))
        × (after.access_token ≡ some t.access_token)
        × (after.refresh_token ≡ some t.refresh_token)
  unfolding finish_refresh store_tokens
  finished i now c kept t d s w q = (
    refl,
    get_elem?-map (wake read (some t.access_token)) c.tasks i w
        ∙ ap some (wake_resent read t d s kept q),
    refl,
    refl,
  )

  -- When the refresh succeeds with an access token that is not empty, each request that waits is
  -- sent again with the new token, the new tokens are stored, and the next 401 may start another
  -- refresh.
  pub refresh_resumes :
      (i now : ℕ) (c : Client J U) (kept r : Response J) (j : J) (t : TokenPair) (d : ℕ) (s : Text)
      → c.refresh ≡ in_flight
      → get_elem? c.tasks i ≡ some (waiting kept)
      → r.status ≢ 401
      → settle read r ≡ resolved j
      → tokens_of j ≡ some t
      → t.access_token ≡ d ∷ s
      → let after = step read tokens_of c (refresh_answer now (some r)) in
        (after.refresh ≡ idle)
        × (get_elem? after.tasks i ≡ some (resent (some t.access_token)))
        × (after.access_token ≡ some t.access_token)
        × (after.refresh_token ≡ some t.refresh_token)
  refresh_resumes i now c kept r j t d s h w n o p q =
      rw (answered_step now c r j t h n o p) (finished i now c kept t d s w q)
