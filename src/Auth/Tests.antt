-- ===== src/Auth/Tests.antt =====
-- Runs of the session, and instances of its theorems. Bodies are texts.
use otel_hive.Base.{
  ◌≤◌, ◌≡◌, ◌≢◌, ◌↔◌, refl, ◌⊎◌, inr, true, false, Option, none, some, List, [], ◌∷◌, get_elem?,
  arith,
}
use otel_hive.Text.{Text, text, truthy}
use otel_hive.Api.{Response, Reader, settle}
use otel_hive.Auth.{
  store_tokens, end_session, loading, unauthenticated, authenticated, TokenPair, sent, waiting,
  resent, idle, in_flight, Client, Event, send, answer, refresh_answer, login_done, logout_done,
  step, run,
}
use otel_hive.Auth.SilentRefresh.{NoLostRequest, run-NoLostRequest, refresh_resumes}
use otel_hive.Auth.DeadRefresh.{IsDeadlocked, refresh_401_deadlock, refresh_disabled}
use otel_hive.Auth.Session.{IsConsistent, run-IsConsistent, run_single_refresh}
use otel_hive.Auth.Progress.{Advances, run-Advances}
use otel_hive.Auth.Init.{
  answers, hangs, Replies, IsStuck, init, init-loading_iff, init-eq-authenticated,
  is_token_expiring_soon,
}

abbrev read_text : Reader Text
read_text = record { setup_required = λ j. false; error = λ j. some j; details = λ j. none }

abbrev new_tokens : TokenPair
new_tokens = record { access_token = text "a2"; refresh_token = text "r2"; expires_in = 60 }

abbrev tokens_of_text : Text → Option TokenPair
tokens_of_text j = some new_tokens

abbrev unauthorized : Response Text
unauthorized = record {
  status = 401;
  status_text = text "Unauthorized";
  body = some (text "expired");
}

abbrev fine : Response Text
fine = record { status = 200; status_text = text "OK"; body = some (text "body") }

abbrev signed_out : Client Text Text
signed_out = record {
  registered = true;
  refresh = idle;
  access_token = none;
  refresh_token = none;
  expires_at = none;
  status = unauthenticated;
  user = none;
  tasks = sent none ∷ [];
  refreshes = 0;
}

abbrev signed_in : Client Text Text
signed_in = record {
  registered = true;
  refresh = idle;
  access_token = some (text "a1");
  refresh_token = some (text "r1");
  expires_at = some 600000;
  status = authenticated;
  user = some (text "admin");
  tasks = sent (some (text "a1")) ∷ sent (some (text "a1")) ∷ [];
  refreshes = 0;
}

abbrev both_refused : List (Event Text Text)
both_refused = answer 0 (some unauthorized) ∷ answer 1 (some unauthorized) ∷ []

abbrev refreshing : Client Text Text
refreshing = record signed_in {
  refresh = in_flight;
  tasks = waiting unauthorized ∷ waiting unauthorized ∷ [];
  refreshes = 1;
}

both_wait : run read_text tokens_of_text signed_in both_refused ≡ refreshing
unfolding run
both_wait = refl

-- A signed-out page whose login failed, then signed in; the 401 of an expired token starts nothing.
login_after_failure :
    (run read_text tokens_of_text signed_out (
      answer 0 (some unauthorized)
      ∷ login_done 0 new_tokens
      ∷ send
      ∷ answer 1 (some unauthorized)
      ∷ [])).refreshes
    ≡ 0
unfolding run
login_after_failure = refl

run-NoLostRequest_example : NoLostRequest (run read_text tokens_of_text signed_in both_refused)
run-NoLostRequest_example =
    run-NoLostRequest read_text tokens_of_text signed_in both_refused (inr (inr (tt, (tt, tt))))

refresh_401_deadlock_example : IsDeadlocked 1 (
    run read_text tokens_of_text
      (step read_text tokens_of_text refreshing (refresh_answer 700000 (some unauthorized)))
      (logout_done ∷ send ∷ answer 2 (some fine) ∷ []))
refresh_401_deadlock_example =
    refresh_401_deadlock read_text tokens_of_text 1 700000 refreshing unauthorized unauthorized
      (logout_done ∷ send ∷ answer 2 (some fine) ∷ []) refl refl refl refl

refresh_disabled_example :
    (run read_text tokens_of_text
      (step read_text tokens_of_text signed_out (answer 0 (some unauthorized)))
      (login_done 0 new_tokens ∷ send ∷ answer 1 (some unauthorized) ∷ [])).refreshes
    ≡ 0
refresh_disabled_example =
    refresh_disabled read_text tokens_of_text 0 signed_out none unauthorized
      (login_done 0 new_tokens ∷ send ∷ answer 1 (some unauthorized) ∷ []) refl refl refl refl refl

run-IsConsistent_example : IsConsistent (run read_text tokens_of_text signed_in both_refused)
run-IsConsistent_example =
    run-IsConsistent read_text tokens_of_text signed_in both_refused (ground arith)

run_single_refresh_example : (run read_text tokens_of_text signed_in both_refused).refreshes ≤ 1
run_single_refresh_example = run_single_refresh read_text tokens_of_text signed_in both_refused

run-Advances_example :
    Advances 0 (sent (some (text "a1"))) (run read_text tokens_of_text signed_in both_refused).tasks
run-Advances_example =
    run-Advances read_text tokens_of_text signed_in both_refused 0 (sent (some (text "a1"))) refl

refresh_resumes_example :
    let after = step read_text tokens_of_text refreshing (refresh_answer 700000 (some fine)) in
    (after.refresh ≡ idle)
    × (get_elem? after.tasks 1 ≡ some (resent (some (text "a2"))))
    × (after.access_token ≡ some (text "a2"))
    × (after.refresh_token ≡ some (text "r2"))
unfolding settle
refresh_resumes_example =
    refresh_resumes read_text tokens_of_text 1 700000 refreshing unauthorized fine (text "body")
      new_tokens _ _ refl refl (omega arith) refl refl refl

abbrev replies : Replies Text
replies = record {
  setup = answers false;
  cancelled_setup = false;
  refreshed = answers new_tokens;
  cancelled_refresh = false;
  me = answers (text "admin");
}

abbrev fresh : Client Text Text
fresh = record signed_in { status = loading; user = none; tasks = [] }

-- The refresh request of the mount is answered with 401.
abbrev stuck_replies : Replies Text
stuck_replies = record replies { refreshed = hangs }

init-loading_iff_example :
    ((init 700000 700001 stuck_replies fresh).status ≡ loading) ↔ IsStuck 700000 stuck_replies fresh
init-loading_iff_example = init-loading_iff 700000 700001 stuck_replies fresh refl refl refl

stuck_refresh : (init 700000 700001 stuck_replies fresh).status ≡ loading
unfolding init
stuck_refresh = refl

init-eq-authenticated_example :
    (replies.setup ≡ answers false)
    × (truthy fresh.access_token ≢ none)
    × ((me : Text) × (replies.me ≡ answers me)
        × ((init 500000 500001 replies fresh).user ≡ some me))
    × ((is_token_expiring_soon 500000 fresh ≡ false)
        ⊎ (truthy fresh.refresh_token ≡ none)
        ⊎ ((t : TokenPair) × (replies.refreshed ≡ answers t)))
unfolding init store_tokens end_session
init-eq-authenticated_example = init-eq-authenticated 500000 500001 replies fresh (λ e. cc) refl
