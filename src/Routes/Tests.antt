-- ===== src/Routes/Tests.antt =====
-- Instances of the theorems on routes.
use otel_hive.Base.{◌≢◌, refl, true, false, Option, none, some, List, [], ◌∷◌, arith}
use otel_hive.Text.{Text, text}
use otel_hive.Api.{Response, Reader}
use otel_hive.Auth.{unauthenticated, loading, TokenPair, idle, Client, Event, me_done, run}
use otel_hive.Routes.{agents, view}
use otel_hive.Routes.Guards.{follow, IsFinal, view-IsFinal, run-shows_user}

abbrev reader : Reader Text
reader = record { setup_required = λ j. false; error = λ j. some j; details = λ j. none }

abbrev no_tokens : Text → Option TokenPair
no_tokens j = none

abbrev start : Client Text Text
start = record {
  registered = true;
  refresh = idle;
  access_token = some (text "a");
  refresh_token = some (text "r");
  expires_at = some 10;
  status = loading;
  user = none;
  tasks = [];
  refreshes = 0;
}

abbrev known : List (Event Text Text)
known = me_done (some (text "admin")) ∷ []

abbrev not_found : Response Text
not_found = record { status = 404; status_text = text "Not Found"; body = none }

view-IsFinal_example : IsFinal (follow unauthenticated (view unauthenticated agents))
view-IsFinal_example = view-IsFinal unauthenticated agents

run-shows_user_example : (run reader no_tokens start known).user ≢ none
unfolding run
run-shows_user_example = run-shows_user reader no_tokens start known agents (ground arith) refl refl
