-- ===== src/Clients.antt =====
-- ui/src/api: the clients of the server's endpoints, and the helpers of base.ts that they call.
-- `query_string` is `new URLSearchParams(params).toString()`; `D` is the type of the data that a page
-- hands over.
pub mod Address
pub mod Routing
pub mod Table
pub mod Distinct
mod Tests
use otel_hive.Base.{ℕ, zero, suc, ◌+◌, ◌/◌, ◌%◌, Option, none, some, List, [], ◌∷◌, ◌++◌}
use otel_hive.Text.{Text, text, truthy, decimal}

pub data Method : Type 0 where
  get post put delete patch : Method

-- What `JSON.stringify` is given: the data of the page, or an object written at the call.
pub data Body (D : Type 0) : Type 0 where
  given : D → Body D
  object : List (Text × Text) → Body D

-- The arguments of `simpleRequest`.
pub record ApiRequest (D : Type 0) : Type 0 where
  pub endpoint : Text
  pub method : Method
  pub body : Option (Body D)

pub data AgentsCall : Type 0 where
  get_agents get_agent_stats : AgentsCall
  get_agent restart_agent : (id : Text) → AgentsCall
  update_agent_group send_config_to_agent : (id argument : Text) → AgentsCall

pub data ConfigsCall (D : Type 0) : Type 0 where
  get_configs : (agent_id group_id : Option Text) (limit : Option ℕ) → ConfigsCall D
  get_config : (id : Text) → ConfigsCall D
  create_config validate_config : D → ConfigsCall D
  update_config : (id : Text) → D → ConfigsCall D
  get_config_versions : (agent_id group_id : Option Text) → ConfigsCall D

pub data GroupsCall (D : Type 0) : Type 0 where
  get_groups : GroupsCall D
  get_group delete_group get_group_config get_group_agents restart_group :
      (id : Text) → GroupsCall D
  create_group : D → GroupsCall D
  assign_config_to_group : (id : Text) → D → GroupsCall D

pub data TopologyCall : Type 0 where
  get_topology : TopologyCall
  get_agent_topology get_group_topology : (id : Text) → TopologyCall

pub data AuthCall (D : Type 0) : Type 0 where
  get_setup_status logout me list_api_keys : AuthCall D
  setup login create_api_key : D → AuthCall D
  refresh : (refresh_token : Text) → AuthCall D
  revoke_api_key : (id : Text) → AuthCall D

pub data GitCall (D : Type 0) : Type 0 where
  list_git_sources : GitCall D
  get_git_source delete_git_source trigger_sync : (id : Text) → GitCall D
  create_git_source : D → GitCall D
  update_git_source : (id : Text) → D → GitCall D

-- A parameter that is absent or empty is left out.
abbrev pub param : Text → Option Text → List (Text × Text)
param key value = elim (truthy value) [ none ↦ [] | some v ↦ (key, v) ∷ [] ]

-- `limit.toString()`, where it is not 0.
unfoldable pub limit_param : Option ℕ → List (Text × Text)
unfolding decimal
limit_param none = []
limit_param (some zero) = []
limit_param (some (suc n)) = (text "limit", decimal (suc n)) ∷ []

-- `/prefix/${id}` and `/prefix/${id}/suffix`
abbrev pub at : Text → Text → Text
at prefix id = prefix ++ id

abbrev pub below : Text → Text → Text → Text
below prefix id suffix = prefix ++ (id ++ suffix)

abbrev pub with_params : (List (Text × Text) → Text) → Text → Option (List (Text × Text)) → Text
with_params query_string endpoint none = endpoint
with_params query_string endpoint (some params) = endpoint ++ (b'?' ∷ query_string params)

module _ {D : Type 0} where
  abbrev pub api_post : Text → Option (Body D) → ApiRequest D
  api_post endpoint data_ = record { endpoint = endpoint; method = post; body = data_ }

  abbrev pub api_put : Text → Option (Body D) → ApiRequest D
  api_put endpoint data_ = record { endpoint = endpoint; method = put; body = data_ }

  abbrev pub api_delete : Text → ApiRequest D
  api_delete endpoint = record { endpoint = endpoint; method = delete; body = none }

  abbrev pub api_patch : Text → Option (Body D) → ApiRequest D
  api_patch endpoint data_ = record { endpoint = endpoint; method = patch; body = data_ }

module _ {D : Type 0} (query_string : List (Text × Text) → Text) where
  abbrev pub api_get : Text → Option (List (Text × Text)) → ApiRequest D
  api_get endpoint params = record {
    endpoint = with_params query_string endpoint params;
    method = get;
    body = none;
  }

  unfoldable pub agents_request : AgentsCall → ApiRequest D
  agents_request get_agents = api_get (text "/agents") none
  agents_request (get_agent id) = api_get (at (text "/agents/") id) none
  agents_request get_agent_stats = api_get (text "/agents/stats") none
  agents_request (update_agent_group id group_id) =
      api_patch (below (text "/agents/") id (text "/group"))
        (some (object ((text "group_id", group_id) ∷ [])))
  agents_request (send_config_to_agent id content) =
      api_post (below (text "/agents/") id (text "/config"))
        (some (object ((text "content", content) ∷ [])))
  agents_request (restart_agent id) =
      api_post (below (text "/agents/") id (text "/restart")) (some (object []))

  unfoldable pub configs_request : ConfigsCall D → ApiRequest D
  unfolding limit_param
  configs_request (get_configs agent_id group_id limit) = api_get (text "/configs") (
      some (
        param (text "agent_id") agent_id
        ++ (param (text "group_id") group_id ++ limit_param limit)))
  configs_request (get_config id) = api_get (at (text "/configs/") id) none
  configs_request (create_config data_) = api_post (text "/configs") (some (given data_))
  configs_request (update_config id data_) = api_put (at (text "/configs/") id) (some (given data_))
  configs_request (validate_config data_) = api_post (text "/configs/validate") (some (given data_))
  configs_request (get_config_versions agent_id group_id) =
      api_get (text "/configs/versions")
        (some (param (text "agent_id") agent_id ++ param (text "group_id") group_id))

  unfoldable pub groups_request : GroupsCall D → ApiRequest D
  groups_request get_groups = api_get (text "/groups") none
  groups_request (get_group id) = api_get (at (text "/groups/") id) none
  groups_request (create_group data_) = api_post (text "/groups") (some (given data_))
  groups_request (delete_group id) = api_delete (at (text "/groups/") id)
  groups_request (assign_config_to_group id data_) =
      api_post (below (text "/groups/") id (text "/config")) (some (given data_))
  groups_request (get_group_config id) = api_get (below (text "/groups/") id (text "/config")) none
  groups_request (get_group_agents id) = api_get (below (text "/groups/") id (text "/agents")) none
  groups_request (restart_group id) =
      api_post (below (text "/groups/") id (text "/restart")) (some (object []))

  unfoldable pub topology_request : TopologyCall → ApiRequest D
  topology_request get_topology = api_get (text "/topology") none
  topology_request (get_agent_topology id) = api_get (at (text "/topology/agent/") id) none
  topology_request (get_group_topology id) = api_get (at (text "/topology/group/") id) none

  -- These call `simpleRequest` themselves, whose method is GET where none is given.
  unfoldable pub auth_request : AuthCall D → ApiRequest D
  auth_request get_setup_status = api_get (text "/api/auth/setup/status") none
  auth_request (setup req) = api_post (text "/api/auth/setup") (some (given req))
  auth_request (login req) = api_post (text "/api/auth/login") (some (given req))
  auth_request logout = api_post (text "/api/auth/logout") none
  auth_request (refresh refresh_token) =
      api_post (text "/api/auth/refresh")
        (some (object ((text "refresh_token", refresh_token) ∷ [])))
  auth_request me = api_get (text "/api/auth/me") none
  auth_request list_api_keys = api_get (text "/api/auth/api-keys") none
  auth_request (create_api_key req) = api_post (text "/api/auth/api-keys") (some (given req))
  auth_request (revoke_api_key id) = api_delete (at (text "/api/auth/api-keys/") id)

  unfoldable pub git_request : GitCall D → ApiRequest D
  git_request list_git_sources = api_get (text "/git-sources") none
  git_request (get_git_source id) = api_get (at (text "/git-sources/") id) none
  git_request (create_git_source data_) = api_post (text "/git-sources") (some (given data_))
  git_request (update_git_source id data_) =
      api_put (at (text "/git-sources/") id) (some (given data_))
  git_request (delete_git_source id) = api_delete (at (text "/git-sources/") id)
  git_request (trigger_sync id) =
      api_post (below (text "/git-sources/") id (text "/sync")) (some (object []))

  -- `listAuditLog`
  unfoldable pub list_audit_log : ℕ → ℕ → Option Text → ApiRequest D
  unfolding decimal
  list_audit_log page limit event_type =
      api_get
        (with_params query_string (text "/audit-log") (
          some (
            (text "page", decimal page)
            ∷ (text "limit", decimal limit)
            ∷ param (text "event_type") event_type)))
        none
