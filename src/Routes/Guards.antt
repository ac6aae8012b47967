-- ===== src/Routes/Guards.antt =====
-- App.tsx: no page behind the guard is shown without a user, and guards do not send in circles.
use otel_hive.Base.{◌≤◌, ◌≡◌, ◌≢◌, refl, subst, Bool, true, false, Option, none, List, arith}
use otel_hive.Api.{Response, Reader, settle, needs_setup}
use otel_hive.Auth.{
  AuthStatus, loading, unauthenticated, authenticated, setup_required, TokenPair, Client, Event,
  run,
}
use otel_hive.Auth.Session.{IsConsistent, run-IsConsistent}
use otel_hive.Routes.{
  Page, View, nothing, goes, shows, is_public, require_auth, guarded, view, retries,
}

-- The view where a redirection is followed once.
abbrev pub follow : AuthStatus → View → View
follow s nothing = nothing
follow s (goes p) = view s p
follow s (shows p) = shows p

abbrev pub IsFinal : View → Type 0
IsFinal nothing = Unit
IsFinal (goes p) = ⊥
IsFinal (shows p) = Unit

guarded-IsFinal :
    (public : Bool) (s : AuthStatus) (p : Page) → IsFinal (follow s (guarded public s p))
guarded-IsFinal true loading p = tt
guarded-IsFinal true unauthenticated p = tt
guarded-IsFinal true authenticated p = tt
guarded-IsFinal true setup_required p = tt
guarded-IsFinal false loading p = tt
guarded-IsFinal false unauthenticated p = tt
guarded-IsFinal false authenticated p = tt
guarded-IsFinal false setup_required p = tt

shows-authenticated : (s : AuthStatus) (p q : Page) → require_auth s p ≡ shows q → s ≡ authenticated
shows-authenticated loading p q h = cc
shows-authenticated unauthenticated p q h = cc
shows-authenticated authenticated p q h = refl
shows-authenticated setup_required p q h = cc

-- Whatever the status, one redirection at most leads to a page or to nothing.
pub view-IsFinal : (s : AuthStatus) (p : Page) → IsFinal (follow s (view s p))
view-IsFinal s p = guarded-IsFinal (is_public p) s p

-- In every order of events, from a session that is consistent, a page behind the guard is shown only
-- while there is a user.
pub run-shows_user :
    {J U : Type 0} (read : Reader J) (tokens_of : J → Option TokenPair) (c : Client J U)
    (es : List (Event J U)) (p : Page)
    → IsConsistent c
    → is_public p ≡ false
    → view (run read tokens_of c es).status p ≡ shows p
    → (run read tokens_of c es).user ≢ none
run-shows_user read tokens_of c es p h private shown =
    let s = (run read tokens_of c es).status in
    (run-IsConsistent read tokens_of c es h).known
      (shows-authenticated s p p (subst (λ b. guarded b s p ≡ shows p) private shown))

-- A request that ends with a status from 400 to 499 is not tried again; one from 500 on is, unless
-- it says that the setup is to be done.
pub retries-settle :
    {J : Type 0} (read : Reader J) (r : Response J)
    → (400 ≤ r.status → r.status ≤ 499 → retries (settle read r) ≡ false)
      × (500 ≤ r.status → needs_setup read r ≡ false → retries (settle read r) ≡ true)
unfolding retries settle
retries-settle read r = (λ low high. ground arith, λ low done. ground arith)
