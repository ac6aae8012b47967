-- ===== src/Auth.antt =====
-- ui/src/hooks/useAuth.tsx with the 401 path of ui/src/api/base.ts: requests, the silent refresh of
-- the tokens and the session, as a machine that takes one event of the browser at a time. A request
-- is a task; an answer to a task, an answer to the refresh request and the ends of login, logout and
-- `fetchMe` come in any order. `refreshes` counts the refresh requests sent; the program has no such
-- variable.
pub mod Moves
pub mod SilentRefresh
pub mod DeadRefresh
pub mod Session
pub mod Progress
pub mod Init
mod Tests
use otel_hive.Base.{
  ℕ, zero, suc, ◌+◌, ◌*◌, Bool, true, false, ◌&&◌, Option, none, some, List, [], ◌∷◌, ◌++◌, map,
  get_elem?, ◌==◌, if◌then◌else◌,
}
use otel_hive.Text.{Text, truthy}
use otel_hive.Api.{
  Response, Outcome, resolved, no_content, rejected, bad_json, navigating, unreachable, Reader,
  settle, settle_answer,
}

pub data AuthStatus : Type 0 where
  loading unauthenticated authenticated setup_required : AuthStatus

pub record TokenPair : Type 0 where
  pub access_token : Text
  pub refresh_token : Text
  pub expires_in : ℕ

-- A request: sent with the header's token, waiting for the refresh with its 401, sent again, settled.
pub data Task (J : Type 0) : Type 0 where
  sent : Option Text → Task J
  waiting : Response J → Task J
  resent : Option Text → Task J
  settled : Outcome J → Task J

-- `refreshPromiseRef.current`: null; the promise of a refresh under way; one that never settles;
-- one that has settled with null and was left there.
pub data Refresh : Type 0 where
  idle in_flight stuck left_null : Refresh

pub record Client (J U : Type 0) : Type 0 where
  pub registered : Bool
  pub refresh : Refresh
  pub access_token : Option Text
  pub refresh_token : Option Text
  pub expires_at : Option ℕ
  pub status : AuthStatus
  pub user : Option U
  pub tasks : List (Task J)
  pub refreshes : ℕ

-- What happens next. `none` for an answer is a request that fails on the network.
pub data Event (J U : Type 0) : Type 0 where
  register : Event J U
  send : Event J U
  answer : ℕ → Option (Response J) → Event J U
  refresh_answer : ℕ → Option (Response J) → Event J U
  login_done : ℕ → TokenPair → Event J U
  me_done : Option U → Event J U
  logout_done : Event J U

abbrev pub set {ℓ} : {A : Type ℓ} → List A → ℕ → A → List A
set [] i v = []
set (x ∷ xs) zero v = v ∷ xs
set (x ∷ xs) (suc i) v = x ∷ set xs i v

-- The header of `buildHeaders(token)`: the given token, or else the stored one.
abbrev pub bearer : Option Text → Option Text → Option Text
bearer none stored = truthy stored
bearer (some t) stored = truthy (some t)

module _ {J U : Type 0} where
  -- `storeTokens`, at `now` in milliseconds.
  pub store_tokens : ℕ → TokenPair → Client J U → Client J U
  store_tokens now t c = record c {
    access_token = some t.access_token;
    refresh_token = some t.refresh_token;
    expires_at = some (now + t.expires_in * 1000);
  }

  -- `clearTokens`
  pub clear_tokens : Client J U → Client J U
  clear_tokens c = record c { access_token = none; refresh_token = none; expires_at = none }

  -- `clearTokens(); setUser(null); setStatus("unauthenticated")`
  pub end_session : Client J U → Client J U
  unfolding clear_tokens
  end_session c = record (clear_tokens c) { user = none; status = unauthenticated }

  -- A call of `refreshTokens`: whether the caller has to wait; if not, it gets null at once.
  pub join_refresh : Client J U → Client J U × Bool
  join_refresh c = elim c.refresh [
    | idle ↦ elim (truthy c.refresh_token) [
      | none ↦ (record c { status = unauthenticated; refresh = left_null }, false)
      | some token ↦ (record c { refresh = in_flight; refreshes = c.refreshes + 1 }, true)
    ]
    | in_flight ↦ (c, true)
    | stuck ↦ (c, true)
    | left_null ↦ (c, false)
  ]

module _ {J : Type 0} (read : Reader J) where
  -- A caller of `refreshTokens` goes on, with a new token or with null.
  pub wake : Option Text → Task J → Task J
  wake (some (c ∷ t)) (waiting r) = resent (some (c ∷ t))
  wake _ (waiting r) = settled (settle read r)
  wake _ (sent a) = sent a
  wake _ (resent a) = resent a
  wake _ (settled o) = settled o

module _ {J U : Type 0} (read : Reader J) (tokens_of : J → Option TokenPair) where
  -- A first answer. A 401 asks for a refresh once; all else settles the request.
  pub answer_first : ℕ → Option (Response J) → Client J U → Client J U
  unfolding join_refresh
  answer_first i none c = record c { tasks = set c.tasks i (settled unreachable) }
  answer_first i (some r) c =
      if r.status == 401 && c.registered
      then (let (c', waits) = join_refresh c in
          record c' {
            tasks = set c.tasks i (if waits then waiting r else settled (settle read r));
          })
      else record c { tasks = set c.tasks i (settled (settle read r)) }

  pub answer_task : ℕ → Option (Response J) → Option (Task J) → Client J U → Client J U
  unfolding answer_first
  answer_task i a (some (sent _)) c = answer_first i a c
  answer_task i a (some (resent _)) c = record c {
    tasks = set c.tasks i (settled (settle_answer read a));
  }
  answer_task i a (some (waiting _)) c = c
  answer_task i a (some (settled _)) c = c
  answer_task i a none c = c

  -- The refresh is over.
  pub finish_refresh : Option Text → Client J U → Client J U
  unfolding wake
  finish_refresh token c = record c { refresh = idle; tasks = map (wake read token) c.tasks }

  -- What the refresh request settles with, in `doRefresh`.
  pub refresh_outcome : ℕ → Outcome J → Client J U → Client J U
  unfolding store_tokens end_session finish_refresh
  refresh_outcome now (resolved j) c = elim (tokens_of j) [
    | some t ↦ finish_refresh (some t.access_token) (store_tokens now t c)
    | none ↦ finish_refresh none (end_session c)
  ]
  refresh_outcome now navigating c = record c { refresh = stuck }
  refresh_outcome now no_content c = finish_refresh none (end_session c)
  refresh_outcome now (rejected message status) c = finish_refresh none (end_session c)
  refresh_outcome now bad_json c = finish_refresh none (end_session c)
  refresh_outcome now unreachable c = finish_refresh none (end_session c)

  -- A 401 makes the refresh request itself wait for the refresh that it belongs to.
  pub answer_refresh : ℕ → Option (Response J) → Client J U → Client J U
  unfolding refresh_outcome
  answer_refresh now none c = refresh_outcome now unreachable c
  answer_refresh now (some r) c =
      if r.status == 401 && c.registered
      then record c { refresh = stuck }
      else refresh_outcome now (settle read r) c

  pub step : Client J U → Event J U → Client J U
  unfolding answer_task answer_refresh store_tokens end_session
  step c register = record c { registered = true }
  step c send = record c { tasks = c.tasks ++ sent (bearer none c.access_token) ∷ [] }
  step c (answer i a) = answer_task i a (get_elem? c.tasks i) c
  step c (refresh_answer now a) = elim c.refresh [
    | in_flight ↦ answer_refresh now a c
    | idle ↦ c
    | stuck ↦ c
    | left_null ↦ c
  ]
  step c (login_done now t) = store_tokens now t c
  step c (me_done (some me)) = record c { user = some me; status = authenticated }
  step c (me_done none) = end_session c
  step c logout_done = end_session c

  unfoldable pub run : Client J U → List (Event J U) → Client J U
  unfolding step
  run c [] = c
  run c (e ∷ es) = run (step c e) es
