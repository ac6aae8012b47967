-- ===== src/Clients/Distinct.antt =====
-- ui/src/api: different calls send different requests.
use otel_hive.Base.{
  Bool, true, not, ◌&&◌, ◌||◌, ◌==◌, arith, ◌≡◌, refl, sym, ap, ◌∙◌, false, some, List, [], ◌∷◌,
  ◌++◌,
}
use otel_hive.Text.{Text, text, text_eq, split}
use otel_hive.Clients.{
  get, post, patch, AgentsCall, get_agents, get_agent_stats, get_agent, restart_agent,
  update_agent_group, send_config_to_agent, ConfigsCall, get_configs, get_config, create_config,
  validate_config, update_config, get_config_versions, GroupsCall, get_groups, get_group,
  delete_group, get_group_config, get_group_agents, restart_group, create_group,
  assign_config_to_group, TopologyCall, get_topology, get_agent_topology, get_group_topology,
  GitCall, list_git_sources, get_git_source, delete_git_source, trigger_sync, create_git_source,
  update_git_source, agents_request, configs_request, groups_request, topology_request, git_request,
}
use otel_hive.Clients.Table.{called}
use otel_hive.Clients.Routing.{
  Call, agents, configs, groups, topology, git, request, IsPlain, segments, before_query,
  segments-IsPlain, segments-below, Label, label,
}

-- The ids stand for one segment each and are no word that has a call of its own.
abbrev pub HasPlainId : {D : Type 0} → Call D → Type 0
HasPlainId (agents (get_agent id)) = IsPlain id × (text_eq id (text "stats") ≡ false)
HasPlainId (configs (get_config id)) = IsPlain id × (text_eq id (text "versions") ≡ false)
HasPlainId c = IsPlain (label c).1

some_injective : {l m : Label} → some l ≡ some m → l ≡ m
some_injective h = cc

is_plain : Text → Bool
is_plain [] = true
is_plain (c ∷ s) = not (c == b'/' || c == b'?') && is_plain s

is_plain-IsPlain : (s : Text) → is_plain s ≡ true → IsPlain s
unfolding is_plain
is_plain-IsPlain [] h = tt
is_plain-IsPlain (c ∷ s) h =
    (((λ e. ground arith), (λ e. ground arith)), is_plain-IsPlain s (ground arith))

-- The address of a part of a resource, `/root/id/part`.
part_below :
    (root id suffix part : Text)
    → is_plain root ≡ true
    → IsPlain id
    → suffix ≡ 47 ∷ part
    → segments part ≡ part ∷ []
    → segments (47 ∷ (root ++ (47 ∷ (id ++ suffix)))) ≡ [] ∷ root ∷ id ∷ part ∷ []
part_below root id suffix part k h e f =
    let below : segments (id ++ suffix) ≡ id ∷ part ∷ [] =
      segments-below id suffix part h e ∙ ap (◌∷◌ id) f in
    let under : segments (root ++ (47 ∷ (id ++ suffix))) ≡ root ∷ id ∷ part ∷ [] =
      segments-below root (47 ∷ (id ++ suffix)) (id ++ suffix) (is_plain-IsPlain root k) refl
      ∙ ap (◌∷◌ root) below in
    let rest : Text = root ++ (47 ∷ (id ++ suffix)) in
    segments-below [] (47 ∷ rest) rest tt refl ∙ ap (◌∷◌ []) under

module _ (D : Type 0) (query_string : List (Text × Text) → Text) where
  Routed : Call D → Type 0
  Routed c =
      called (request query_string c).method (segments (request query_string c).endpoint)
      ≡ some (label c)

  agents-Routed : (c : AgentsCall) → HasPlainId {D = D} (agents c) → Routed (agents c)
  unfolding is_plain Routed called agents_request before_query split text_eq
  agents-Routed get_agents h = refl
  agents-Routed get_agent_stats h = refl
  agents-Routed (get_agent id) h = rw (segments-IsPlain id h.0, h.1) refl
  agents-Routed (restart_agent id) h =
      ap (called post)
        (part_below (text "agents") id (text "/restart") (text "restart") refl h refl refl)
  agents-Routed (update_agent_group id group_id) h =
      ap (called patch)
        (part_below (text "agents") id (text "/group") (text "group") refl h refl refl)
  agents-Routed (send_config_to_agent id content) h =
      ap (called post)
        (part_below (text "agents") id (text "/config") (text "config") refl h refl refl)

  configs-Routed : (c : ConfigsCall D) → HasPlainId (configs c) → Routed (configs c)
  unfolding is_plain Routed called configs_request before_query split text_eq
  configs-Routed (get_configs agent_id group_id limit) h = refl
  configs-Routed (get_config id) h = rw (segments-IsPlain id h.0, h.1) refl
  configs-Routed (create_config data_) h = refl
  configs-Routed (validate_config data_) h = refl
  configs-Routed (update_config id data_) h = rw (segments-IsPlain id h) refl
  configs-Routed (get_config_versions agent_id group_id) h = refl

  groups-Routed : (c : GroupsCall D) → HasPlainId (groups c) → Routed (groups c)
  unfolding is_plain Routed called groups_request before_query split text_eq
  groups-Routed get_groups h = refl
  groups-Routed (get_group id) h = rw (segments-IsPlain id h) refl
  groups-Routed (delete_group id) h = rw (segments-IsPlain id h) refl
  groups-Routed (get_group_config id) h =
      ap (called get)
        (part_below (text "groups") id (text "/config") (text "config") refl h refl refl)
  groups-Routed (get_group_agents id) h =
      ap (called get)
        (part_below (text "groups") id (text "/agents") (text "agents") refl h refl refl)
  groups-Routed (restart_group id) h =
      ap (called post)
        (part_below (text "groups") id (text "/restart") (text "restart") refl h refl refl)
  groups-Routed (create_group data_) h = refl
  groups-Routed (assign_config_to_group id data_) h =
      ap (called post)
        (part_below (text "groups") id (text "/config") (text "config") refl h refl refl)

  topology-Routed : (c : TopologyCall) → HasPlainId {D = D} (topology c) → Routed (topology c)
  unfolding is_plain Routed called topology_request before_query split text_eq
  topology-Routed get_topology h = refl
  topology-Routed (get_agent_topology id) h = rw (segments-IsPlain id h) refl
  topology-Routed (get_group_topology id) h = rw (segments-IsPlain id h) refl

  git-Routed : (c : GitCall D) → HasPlainId (git c) → Routed (git c)
  unfolding is_plain Routed called git_request before_query split text_eq
  git-Routed list_git_sources h = refl
  git-Routed (get_git_source id) h = rw (segments-IsPlain id h) refl
  git-Routed (delete_git_source id) h = rw (segments-IsPlain id h) refl
  git-Routed (trigger_sync id) h =
      ap (called post)
        (part_below (text "git-sources") id (text "/sync") (text "sync") refl h refl refl)
  git-Routed (create_git_source data_) h = refl
  git-Routed (update_git_source id data_) h = rw (segments-IsPlain id h) refl

  request-Routed : (c : Call D) → HasPlainId c → Routed c
  request-Routed (agents c) h = agents-Routed c h
  request-Routed (configs c) h = configs-Routed c h
  request-Routed (groups c) h = groups-Routed c h
  request-Routed (topology c) h = topology-Routed c h
  request-Routed (git c) h = git-Routed c h

  -- Two calls of the clients of agents, configurations, groups, topology and git sources that send the
  -- same method to the same address call the same function with the same id, where the ids hold no slash and no question mark, the id of an agent to fetch is not
  -- `stats` and that of a configuration to fetch is not `versions`.
  pub request-label :
      (c d : Call D)
      → HasPlainId c
      → HasPlainId d
      → (request query_string c).method ≡ (request query_string d).method
      → (request query_string c).endpoint ≡ (request query_string d).endpoint
      → label c ≡ label d
  unfolding Routed
  request-label c d h k methods endpoints = some_injective (
      sym (request-Routed c h)
      ∙ ap (λ m. called m (segments (request query_string c).endpoint)) methods
      ∙ ap (λ e. called (request query_string d).method (segments e)) endpoints
      ∙ request-Routed d k)
