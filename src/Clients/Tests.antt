-- ===== src/Clients/Tests.antt =====
-- Addresses of the server and of requests, and an instance of the theorem.
use otel_hive.Base.{◌≡◌, refl, none, some, List, [], arith}
use otel_hive.Text.{Text, text, text_eq}
use otel_hive.Clients.{
  get_agents, get_configs, update_agent_group, me, auth_request, agents_request, configs_request,
}
use otel_hive.Clients.Address.{Environment, url}
use otel_hive.Clients.Routing.{Call, agents, IsPlain, label}
use otel_hive.Clients.Distinct.{request-label}

abbrev no_query : List (Text × Text) → Text
no_query params = []

abbrev served : Environment
served = record {
  runtime_backend_url = some (text "__LAWRENCE_BACKEND_URL__");
  origin = some (text "https://hive");
  vite_backend_url = none;
}

agents_url :
    url {D = Text} served (agents_request no_query get_agents) ≡ text "https://hive/api/v1/agents"
unfolding url agents_request text_eq
agents_url = refl

-- The address of the session ends in a path that holds the prefix twice.
me_url : url {D = Text} served (auth_request no_query me) ≡ text "https://hive/api/v1/api/auth/me"
unfolding url auth_request text_eq
me_url = refl

-- No parameters leave the question mark.
no_params :
    (configs_request {D = Text} no_query (get_configs none none none)).endpoint ≡ text "/configs?"
unfolding configs_request
no_params = refl

plain : IsPlain (text "a1")
plain = (
  ((λ e. omega (arith, e)), (λ e. omega (arith, e))),
  (((λ e. omega (arith, e)), (λ e. omega (arith, e))), tt),
)

-- Two calls of one function with one id, with other bodies.
abbrev one_call : Call Text
one_call = agents (update_agent_group (text "a1") (text "g1"))

abbrev other_call : Call Text
other_call = agents (update_agent_group (text "a1") (text "g2"))

request-label_example : label one_call ≡ label other_call
unfolding agents_request
request-label_example = request-label Text no_query one_call other_call plain plain refl refl
