-- ===== src/Auth/Init.antt =====
-- ui/src/hooks/useAuth.tsx, the effect that runs on mount. What the server answers and what the clock
-- says are arguments; `cancelled` is the unmount flag as it stands after each `await`.
use otel_hive.Base.{
  ℕ, ◌+◌, ◌*◌, ◌≡◌, ◌≢◌, ◌⊎◌, ◌↔◌, Bool, true, false, Option, none, some, arith, ltb, if◌then◌else◌,
}
use otel_hive.Text.{truthy}
use otel_hive.Auth.{
  AuthStatus, loading, unauthenticated, authenticated, setup_required, TokenPair, Client,
  store_tokens, end_session,
}

abbrev or_zero : Option ℕ → ℕ
or_zero none = 0
or_zero (some n) = n

-- `Date.now() > expiresAt - 2 * 60 * 1000`, with the subtraction moved to the other side.
pub is_token_expiring_soon : {J U : Type 0} → ℕ → Client J U → Bool
is_token_expiring_soon now c = ltb (or_zero c.expires_at) (now + 2 * 60 * 1000)

-- What becomes of a call. One never settles where the page is sent to the setup meanwhile, and where
-- the refresh request itself is answered with 401.
pub data ApiCall (A : Type 0) : Type 0 where
  answers : A → ApiCall A
  rejects hangs : ApiCall A

-- The calls of the initial check.
pub record Replies (U : Type 0) : Type 0 where
  pub setup : ApiCall Bool
  pub cancelled_setup : Bool
  pub refreshed : ApiCall TokenPair
  pub cancelled_refresh : Bool
  pub me : ApiCall U

module _ {J U : Type 0} where
  pub fetch_me : ApiCall U → Client J U → Client J U
  fetch_me (answers me) c = record c { user = some me; status = authenticated }
  fetch_me rejects c = end_session c
  fetch_me hangs c = c

  -- `if (!cancelled) setStatus(s)`
  pub set_status : Bool → AuthStatus → Client J U → Client J U
  set_status cancelled s c = if cancelled then c else record c { status = s }

  pub refresh_first : ℕ → Replies U → Client J U → Client J U
  unfolding fetch_me set_status
  refresh_first now a c = elim (truthy c.refresh_token) [
    | none ↦ fetch_me a.me c
    | some token ↦ elim a.refreshed [
      | hangs ↦ c
      | rejects ↦ set_status a.cancelled_refresh unauthenticated c
      | answers tokens ↦
          if a.cancelled_refresh then c else fetch_me a.me (store_tokens now tokens c)
    ]
  ]

  pub check_token : ℕ → ℕ → Replies U → Client J U → Client J U
  unfolding refresh_first is_token_expiring_soon
  check_token now later a c = elim (truthy c.access_token) [
    | none ↦ record c { status = unauthenticated }
    | some token ↦ if is_token_expiring_soon now c then refresh_first later a c else fetch_me a.me c
  ]

  -- `init`; `now` is the time of the expiry check, `later` that of storing new tokens.
  unfoldable pub init : ℕ → ℕ → Replies U → Client J U → Client J U
  unfolding check_token
  init now later a c = elim a.setup [
    | hangs ↦ c
    | rejects ↦ set_status a.cancelled_setup unauthenticated c
    | answers true ↦ set_status a.cancelled_setup setup_required c
    | answers false ↦ if a.cancelled_setup then c else check_token now later a c
  ]

  -- The initial check comes to `fetchMe`, once the setup is done and there is an access token.
  abbrev pub AsksProfile : ℕ → Replies U → Client J U → Type 0
  AsksProfile now a c =
      (is_token_expiring_soon now c ≡ false)
      ⊎ (truthy c.refresh_token ≡ none)
      ⊎ ((t : TokenPair) × (a.refreshed ≡ answers t))

  -- A call that the initial check waits for never settles.
  abbrev pub IsStuck : ℕ → Replies U → Client J U → Type 0
  IsStuck now a c =
      (a.setup ≡ hangs)
      ⊎ ((a.setup ≡ answers false)
          × (truthy c.access_token ≢ none)
          × (((is_token_expiring_soon now c ≡ true)
                × (truthy c.refresh_token ≢ none)
                × (a.refreshed ≡ hangs))
              ⊎ (AsksProfile now a c × (a.me ≡ hangs))))

  -- Unless the page is left meanwhile, the initial check leaves the status loading exactly where one of
  -- the calls that it comes to never settles: that of the setup, that of the refresh, for a token that
  -- is about to expire, or that of the profile.
  pub init-loading_iff :
      (now later : ℕ) (a : Replies U) (c : Client J U)
      → c.status ≡ loading
      → a.cancelled_setup ≡ false
      → a.cancelled_refresh ≡ false
      → ((init now later a c).status ≡ loading) ↔ IsStuck now a c
  unfolding init end_session store_tokens
  init-loading_iff now later a c s h k = (λ e. ground arith, λ e. ground arith)

  -- A mount that ends signed in has been told that setup is done, has found an access token, got the
  -- user from the server, and got new tokens if the old ones were about to expire and could be
  -- refreshed.
  pub init-eq-authenticated :
      (now later : ℕ) (a : Replies U) (c : Client J U)
      → c.status ≢ authenticated
      → (init now later a c).status ≡ authenticated
      → (a.setup ≡ answers false)
        × (truthy c.access_token ≢ none)
        × ((me : U) × (a.me ≡ answers me) × ((init now later a c).user ≡ some me))
        × ((is_token_expiring_soon now c ≡ false)
            ⊎ (truthy c.refresh_token ≡ none)
            ⊎ ((t : TokenPair) × (a.refreshed ≡ answers t)))
  unfolding init end_session store_tokens
  init-eq-authenticated now later a c h k = ground arith
