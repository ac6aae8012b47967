-- ===== src/Routes.antt =====
-- ui/src/App.tsx: the guards of the routes, over the status of the session; and
-- ui/src/lib/swr-config.ts: which failed requests are tried again. The router matches an address
-- with a page; `config_edit` has the id of the configuration.
pub mod Guards
mod Tests
use otel_hive.Base.{ℕ, Bool, true, false, ◌&&◌, not, Option, none, some, ltb, leb}
use otel_hive.Text.{Text}
use otel_hive.Auth.{AuthStatus, loading, unauthenticated, authenticated, setup_required}
use otel_hive.Api.{Outcome, resolved, no_content, rejected, bad_json, navigating, unreachable}

pub data Page : Type 0 where
  login setup agents groups configs config_new topology git_sources audit_log api_keys : Page
  config_edit : Text → Page

-- What a route renders: nothing, a `Navigate` to another page, or its page.
pub data View : Type 0 where
  nothing : View
  goes : Page → View
  shows : Page → View

-- `RequireAuth`
abbrev pub require_auth : AuthStatus → Page → View
require_auth loading p = nothing
require_auth setup_required p = goes setup
require_auth unauthenticated p = goes login
require_auth authenticated p = shows p

-- `RedirectIfAuthed`; its effect leaves the page once the session is authenticated.
abbrev pub redirect_if_authed : AuthStatus → Page → View
redirect_if_authed loading p = nothing
redirect_if_authed setup_required p = shows p
redirect_if_authed unauthenticated p = shows p
redirect_if_authed authenticated p = goes agents

abbrev pub is_public : Page → Bool
is_public login = true
is_public setup = true
is_public p = false

-- A route behind one guard or the other.
abbrev pub guarded : Bool → AuthStatus → Page → View
guarded true s p = redirect_if_authed s p
guarded false s p = require_auth s p

-- The table of routes.
abbrev pub view : AuthStatus → Page → View
view s p = guarded (is_public p) s p

-- `shouldRetryOnError`, for an error with its status if it has one.
unfoldable pub should_retry_on_error : Option ℕ → Bool
should_retry_on_error none = true
should_retry_on_error (some status) = not (leb 400 status && ltb status 500)

-- Whether the end of a request is an error that is tried again.
unfoldable pub retries : {J : Type 0} → Outcome J → Bool
unfolding should_retry_on_error
retries (resolved j) = false
retries no_content = false
retries navigating = false
retries (rejected message status) = should_retry_on_error (some status)
retries bad_json = should_retry_on_error none
retries unreachable = should_retry_on_error none
