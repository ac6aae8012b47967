-- ===== src/Agents.antt =====
-- ui/src/pages/Agents.tsx: the agents that the page lists, and ui/src/components/topology/
-- DisplaySidebar.tsx: the number of agents beside each group. `time_of` is `new Date(s).getTime()`.
pub mod Listed
pub mod Matched
pub mod Page
pub mod Shown
mod Tests
use otel_hive.Base.{
  ℕ, Bool, true, false, ◌&&◌, Option, none, some, List, [], ◌∷◌, map, length, keep, leb,
  if◌then◌else◌, sort,
}
use otel_hive.Text.{Text, text, text_eq, truthy}

pub data AgentStatus : Type 0 where
  online offline error : AgentStatus

abbrev pub Labels : Type 0
Labels = List (Text × Text)

pub record Agent : Type 0 where
  pub id : Text
  pub name : Text
  pub status : AgentStatus
  pub last_seen : Text
  pub group_id : Option Text
  pub labels : Option Labels

pub record Group : Type 0 where
  pub id : Text
  pub name : Text
  pub labels : Option Labels

-- `SortOrder`, with `none` for null.
pub data SortOrder : Type 0 where
  asc desc : SortOrder

abbrev pub handle_sort_toggle : Option SortOrder → Option SortOrder
handle_sort_toggle none = some desc
handle_sort_toggle (some desc) = some asc
handle_sort_toggle (some asc) = some desc

-- `groupIdToName[id]`, where a later group takes the place of an earlier one.
unfoldable pub group_id_to_name : List Group → Text → Option Text
unfolding text_eq
group_id_to_name [] id = none
group_id_to_name (g ∷ gs) id = elim (group_id_to_name gs id) [
  | some name ↦ some name
  | none ↦ if text_eq g.id id then some g.name else none
]

-- `groupIdToName[agent.group_id] || agent.group_id`
unfoldable pub group_label : List Group → Text → Text
unfolding group_id_to_name
group_label groups group_id = elim (truthy (group_id_to_name groups group_id)) [
  | none ↦ group_id
  | some name ↦ name
]

abbrev pub is_online : AgentStatus → Bool
is_online online = true
is_online _ = false

abbrev pub filtered : Bool → List Agent → List Agent
filtered true agents = keep (λ (a : Agent). is_online a.status) agents
filtered false agents = agents

module _ (time_of : Text → ℕ) where
  -- The comparator, for each order.
  abbrev pub compare_seen : SortOrder → Agent → Agent → Bool
  compare_seen asc a b = leb (time_of a.last_seen) (time_of b.last_seen)
  compare_seen desc a b = leb (time_of b.last_seen) (time_of a.last_seen)

  abbrev pub sorted_agents : Option SortOrder → List Agent → List Agent
  sorted_agents none agents = agents
  sorted_agents (some order) agents = sort (compare_seen order) agents

  unfoldable pub filtered_and_sorted_agents : Bool → Option SortOrder → List Agent → List Agent
  unfolding sort
  filtered_and_sorted_agents show_active_only sort_order all_agents =
      sorted_agents sort_order (filtered show_active_only all_agents)

-- `labels || {}`
abbrev pub or_no_labels : Option Labels → Labels
or_no_labels none = []
or_no_labels (some labels) = labels

unfoldable pub label : Labels → Text → Option Text
unfolding text_eq
label [] key = none
label ((k, v) ∷ labels) key = if text_eq k key then some v else label labels key

-- `agentLabels[key] === value`
abbrev pub same_value : Option Text → Text → Bool
same_value none value = false
same_value (some v) value = text_eq v value

-- Every label of the group is one of the agent.
unfoldable pub matches : Labels → Labels → Bool
unfolding label text_eq
matches [] agent_labels = true
matches ((key, value) ∷ group_labels) agent_labels =
    same_value (label agent_labels key) value && matches group_labels agent_labels

unfoldable pub group_agent_count : List Agent → Group → ℕ
unfolding matches
group_agent_count agents group =
    length
      (keep (λ (a : Agent). matches (or_no_labels group.labels) (or_no_labels a.labels)) agents)

-- `groupAgentCounts`, in the order of the groups.
unfoldable pub group_agent_counts : List Group → List Agent → List (Text × ℕ)
unfolding group_agent_count
group_agent_counts groups agents = map (λ (g : Group). (g.id, group_agent_count agents g)) groups
