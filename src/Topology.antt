-- ===== src/Topology.antt =====
-- ui/src/components/topology/useTopologyLayout.ts: the agents or the groups on a grid, and the edges
-- between them. The look of nodes and edges is left out, and so are the metrics and labels that a
-- node only passes on.
pub mod Grid
mod Tests
use otel_hive.Base.{
  ℕ, ◌+◌, ◌*◌, ◌/◌, ◌%◌, Bool, true, false, ◌&&◌, Option, none, some, List, [], ◌∷◌, ◌++◌, take,
  drop, keep, if◌then◌else◌,
}
use otel_hive.Text.{Text, text, text_eq, starts_with, remove_first}

pub data Kind : Type 0 where
  agent group service : Kind

pub data Level : Type 0 where
  instance_level group_level : Level

pub record TopologyNode : Type 0 where
  pub id : Text
  pub kind : Kind
  pub name : Text
  pub status : Text
  pub group_name : Option Text

pub record TopologyEdge : Type 0 where
  pub source : Text
  pub target : Text
  pub label : Option Text

pub record TopologyGroup : Type 0 where
  pub id : Text
  pub agent_count : ℕ

-- A list that is absent is `none`.
pub record TopologyData : Type 0 where
  pub nodes : Option (List TopologyNode)
  pub edges : Option (List TopologyEdge)
  pub groups : Option (List TopologyGroup)

pub data FlowData : Type 0 where
  agent_data : (name status : Text) → Option Text → FlowData
  group_data : (name status : Text) → ℕ → FlowData

pub record FlowNode : Type 0 where
  pub id : Text
  pub data_ : FlowData
  pub x : ℕ
  pub y : ℕ

pub record FlowEdge : Type 0 where
  pub index : ℕ
  pub source : Text
  pub target : Text
  pub label : Option Text

abbrev pub is_agent : TopologyNode → Bool
is_agent n = elim n.kind [ agent ↦ true | group ↦ false | service ↦ false ]

abbrev pub is_group : TopologyNode → Bool
is_group n = elim n.kind [ agent ↦ false | group ↦ true | service ↦ false ]

pub without_prefix : Text → Text
unfolding remove_first
without_prefix id = remove_first id (text "group-")

pub agent_count : List TopologyGroup → Text → ℕ
agent_count [] id = 0
agent_count (g ∷ gs) id =
    let rest = agent_count gs id in if text_eq g.id id then g.agent_count else rest

abbrev groups_of : Option (List TopologyGroup) → List TopologyGroup
groups_of none = []
groups_of (some gs) = gs

-- `forEach` and `map` with the index.
abbrev pub each {ℓ κ} : {A : Type ℓ} {B : Type κ} → (A → ℕ → B) → List A → ℕ → List B
each f [] i = []
each f (a ∷ rest) i = f a i ∷ each f rest (i + 1)

abbrev pub group_node : Option (List TopologyGroup) → TopologyNode → ℕ → FlowNode
group_node groups n i = record {
  id = n.id;
  data_ = group_data n.name n.status (agent_count (groups_of groups) (without_prefix n.id));
  x = i * 300 + 50;
  y = 150;
}

abbrev pub agent_node : TopologyNode → ℕ → FlowNode
agent_node n i = record {
  id = n.id;
  data_ = agent_data n.name n.status n.group_name;
  x = (i % 4) * 250 + 50;
  y = (i / 4) * 200 + 150;
}

abbrev pub nodes_at : Level → Option (List TopologyGroup) → List TopologyNode → List FlowNode
nodes_at group_level groups ns = each (group_node groups) (keep is_group ns) 0
nodes_at instance_level groups ns = each agent_node (keep is_agent ns) 0

unfoldable pub layout_nodes : Option TopologyData → Level → List FlowNode
layout_nodes none level = []
layout_nodes (some d) level = elim d.nodes [ none ↦ [] | some ns ↦ nodes_at level d.groups ns ]

abbrev pub prefix_of : Level → Text
prefix_of group_level = text "group-"
prefix_of instance_level = text "agent-"

abbrev pub is_shown : Level → TopologyEdge → Bool
is_shown level e = starts_with e.source (prefix_of level) && starts_with e.target (prefix_of level)

abbrev pub flow_edge : TopologyEdge → ℕ → FlowEdge
flow_edge e i = record { index = i; source = e.source; target = e.target; label = e.label }

unfoldable pub layout_edges : Option TopologyData → Level → List FlowEdge
layout_edges none level = []
layout_edges (some d) level = elim d.edges [
  | none ↦ []
  | some es ↦ each flow_edge (keep (is_shown level) es) 0
]
