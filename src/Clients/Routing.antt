-- ===== src/Clients/Routing.antt =====
-- ui/src/api: which client function a method and an address belong to.
use otel_hive.Base.{
  ◌≡◌, refl, ap, ◌∙◌, ◌≢◌, false, List, [], ◌∷◌, ◌++◌, All, ◌==◌, if◌then◌else◌, arith,
}
use otel_hive.Text.{Text, text, split}
use otel_hive.Text.Laws.{split-cons}
use otel_hive.Clients.{
  ApiRequest, AgentsCall, get_agents, get_agent_stats, get_agent, restart_agent, update_agent_group,
  send_config_to_agent, ConfigsCall, get_configs, get_config, create_config, validate_config,
  update_config, get_config_versions, GroupsCall, get_groups, get_group, delete_group,
  get_group_config, get_group_agents, restart_group, create_group, assign_config_to_group,
  TopologyCall, get_topology, get_agent_topology, get_group_topology, GitCall, list_git_sources,
  get_git_source, delete_git_source, trigger_sync, create_git_source, update_git_source,
  agents_request, configs_request, groups_request, topology_request, git_request,
}

-- The calls of the server's own resources.
pub data Call (D : Type 0) : Type 0 where
  agents : AgentsCall → Call D
  configs : ConfigsCall D → Call D
  groups : GroupsCall D → Call D
  topology : TopologyCall → Call D
  git : GitCall D → Call D

abbrev pub request : {D : Type 0} → (List (Text × Text) → Text) → Call D → ApiRequest D
request query_string (agents c) = agents_request query_string c
request query_string (configs c) = configs_request query_string c
request query_string (groups c) = groups_request query_string c
request query_string (topology c) = topology_request query_string c
request query_string (git c) = git_request query_string c

-- The address without its query, cut at the slashes.
unfoldable pub before_query : Text → Text
before_query [] = []
before_query (c ∷ s) = if c == b'?' then [] else c ∷ before_query s

abbrev pub segments : Text → List Text
segments endpoint = split b'/' (before_query endpoint)

-- An id that stands for one segment.
abbrev pub IsPlain : Text → Type 0
IsPlain id = All (λ c. (c ≢ 47) × (c ≢ 63)) id

pub segments-IsPlain : (id : Text) → IsPlain id → segments id ≡ id ∷ []
unfolding before_query split
segments-IsPlain [] h = refl
segments-IsPlain (c ∷ id) h =
    let slash : (c == 47) ≡ false = ground arith in
    let mark : (c == 63) ≡ false = ground arith in rw (mark, segments-IsPlain id h.1, slash) refl

segments-slash : (id t : Text) → IsPlain id → segments (id ++ (47 ∷ t)) ≡ id ∷ segments t
unfolding before_query split
segments-slash [] t h = let (first, rest, e) = split-cons 47 (before_query t) in rw e refl
segments-slash (c ∷ id) t h =
    let slash : (c == 47) ≡ false = ground arith in
    let mark : (c == 63) ≡ false = ground arith in rw (mark, segments-slash id t h.1, slash) refl

pub segments-below :
    (id suffix t : Text) → IsPlain id → suffix ≡ 47 ∷ t → segments (id ++ suffix) ≡ id ∷ segments t
segments-below id suffix t h e = ap (λ s. segments (id ++ s)) e ∙ segments-slash id t h

-- The name of the client function and the id that it is called with.
abbrev pub Label : Type 0
Label = Text × Text

abbrev pub agents_label : AgentsCall → Label
agents_label get_agents = (text "getAgents", [])
agents_label get_agent_stats = (text "getAgentStats", [])
agents_label (get_agent id) = (text "getAgent", id)
agents_label (restart_agent id) = (text "restartAgent", id)
agents_label (update_agent_group id group_id) = (text "updateAgentGroup", id)
agents_label (send_config_to_agent id content) = (text "sendConfigToAgent", id)

abbrev pub configs_label : {D : Type 0} → ConfigsCall D → Label
configs_label (get_configs agent_id group_id limit) = (text "getConfigs", [])
configs_label (get_config id) = (text "getConfig", id)
configs_label (create_config data_) = (text "createConfig", [])
configs_label (validate_config data_) = (text "validateConfig", [])
configs_label (update_config id data_) = (text "updateConfig", id)
configs_label (get_config_versions agent_id group_id) = (text "getConfigVersions", [])

abbrev pub groups_label : {D : Type 0} → GroupsCall D → Label
groups_label get_groups = (text "getGroups", [])
groups_label (get_group id) = (text "getGroup", id)
groups_label (delete_group id) = (text "deleteGroup", id)
groups_label (get_group_config id) = (text "getGroupConfig", id)
groups_label (get_group_agents id) = (text "getGroupAgents", id)
groups_label (restart_group id) = (text "restartGroup", id)
groups_label (create_group data_) = (text "createGroup", [])
groups_label (assign_config_to_group id data_) = (text "assignConfigToGroup", id)

abbrev pub topology_label : TopologyCall → Label
topology_label get_topology = (text "getTopology", [])
topology_label (get_agent_topology id) = (text "getAgentTopology", id)
topology_label (get_group_topology id) = (text "getGroupTopology", id)

abbrev pub git_label : {D : Type 0} → GitCall D → Label
git_label list_git_sources = (text "listGitSources", [])
git_label (get_git_source id) = (text "getGitSource", id)
git_label (delete_git_source id) = (text "deleteGitSource", id)
git_label (trigger_sync id) = (text "triggerSync", id)
git_label (create_git_source data_) = (text "createGitSource", [])
git_label (update_git_source id data_) = (text "updateGitSource", id)

abbrev pub label : {D : Type 0} → Call D → Label
label (agents c) = agents_label c
label (configs c) = configs_label c
label (groups c) = groups_label c
label (topology c) = topology_label c
label (git c) = git_label c
