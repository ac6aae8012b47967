-- ===== src/Pages/Topology/Clicked.antt =====
-- Topology.tsx: a click on a node of the graph opens the details of that agent or group.
use otel_hive.Base.{
  ℕ, ◌+◌, ◌≡◌, ap, ◌∙◌, inl, inr, true, Option, some, List, [], ◌∷◌, ◌++◌, keep, In, here, there,
  In-cons, In-keep, All, All-In, arith,
}
use otel_hive.Text.{Text, text, remove_first}
use otel_hive.Text.Laws.{remove_first_prefix}
use otel_hive.Topology.{
  Kind, agent, group, service, Level, instance_level, group_level, TopologyNode, TopologyGroup,
  TopologyData, FlowNode, is_agent, is_group, each, group_node, agent_node, nodes_at, layout_nodes,
  prefix_of,
}
use otel_hive.Clients.{get_agent_topology, get_group_topology}
use otel_hive.Details.{agent_details, group_details}
use otel_hive.Pages.Topology.{TopologyPage, click_node, on_node_click, topology_step}

-- An agent is called by its id after `agent-`, and a group by its id after `group-`, not empty.
abbrev pub kind_prefix : Kind → Text
kind_prefix agent = text "agent-"
kind_prefix group = text "group-"
kind_prefix service = []

abbrev pub IsNamed : TopologyNode → Type 0
IsNamed n = (c : ℕ) × (id : Text) × (n.id ≡ kind_prefix n.kind ++ (c ∷ id))

-- The page shows the drawer of that agent or that group, which fetches its details.
abbrev pub Opens : Level → Text → TopologyPage → Type 0
Opens instance_level id s =
    agent_details s.selected_agent_id s.drawer_open ≡ some (get_agent_topology id)
Opens group_level id s =
    group_details s.selected_group_id s.group_drawer_open ≡ some (get_group_topology id)

each-In {ℓ κ} :
    {A : Type ℓ} {B : Type κ} (f : A → ℕ → B) (xs : List A) (start : ℕ) {b : B}
    → In b (each f xs start)
    → (a : A) × In a xs × (i : ℕ) × (b ≡ f a i)
each-In f [] start i = elim i [ ]
each-In f (x ∷ xs) start i = elim (In-cons i) [
  | inl e ↦ (x, here, start, e)
  | inr j ↦ let (a, k, n, e) = each-In f xs (start + 1) j in (a, there k, n, e)
]

agent_kind : (n : TopologyNode) → is_agent n ≡ true → n.kind ≡ agent
agent_kind n h = ground arith

group_kind : (n : TopologyNode) → is_group n ≡ true → n.kind ≡ group
group_kind n h = ground arith

named_as :
    (n : TopologyNode) (k : Kind)
    → n.kind ≡ k
    → IsNamed n
    → (c : ℕ) × (id : Text) × (n.id ≡ kind_prefix k ++ (c ∷ id))
named_as n k e (c, id, named) = (c, id, named ∙ ap (λ j. kind_prefix j ++ (c ∷ id)) e)

module _ (s : TopologyPage) where
  click-agent :
      (n : TopologyNode) (i c : ℕ) (id : Text)
      → n.id ≡ text "agent-" ++ (c ∷ id)
      → Opens instance_level (c ∷ id) (topology_step s (click_node (agent_node n i)))
  unfolding topology_step on_node_click agent_details
  click-agent n i c id e =
      ap (λ t. agent_details (some t) true)
        (ap (λ t. remove_first t (text "agent-")) e ∙ remove_first_prefix (text "agent-") (c ∷ id))

  click-group :
      (groups : Option (List TopologyGroup)) (n : TopologyNode) (i c : ℕ) (id : Text)
      → n.id ≡ text "group-" ++ (c ∷ id)
      → Opens group_level (c ∷ id) (topology_step s (click_node (group_node groups n i)))
  unfolding topology_step on_node_click group_details
  click-group groups n i c id e =
      ap (λ t. group_details (some t) true)
        (ap (λ t. remove_first t (text "group-")) e ∙ remove_first_prefix (text "group-") (c ∷ id))

  -- What a click on a node of the graph does.
  abbrev pub Shows : Level → List TopologyNode → FlowNode → Type 0
  Shows level ns m =
      (n : TopologyNode) × In n ns
      × (id : Text) × (n.id ≡ prefix_of level ++ id)
      × Opens level id (topology_step s (click_node m))

  nodes_at-Shows :
      (level : Level) (groups : Option (List TopologyGroup)) (ns : List TopologyNode) (m : FlowNode)
      → All IsNamed ns
      → In m (nodes_at level groups ns)
      → Shows level ns m
  nodes_at-Shows instance_level groups ns m named h =
      let (n, k, i, e) = each-In agent_node (keep is_agent ns) 0 h in
      let (at, same) = (In-keep is_agent n ns).0 k in
      let (c, id, called) = named_as n agent (agent_kind n same) (All-In IsNamed named at) in
      rw e (n, at, c ∷ id, called, click-agent n i c id called)
  nodes_at-Shows group_level groups ns m named h =
      let (n, k, i, e) = each-In (group_node groups) (keep is_group ns) 0 h in
      let (at, same) = (In-keep is_group n ns).0 k in
      let (c, id, called) = named_as n group (group_kind n same) (All-In IsNamed named at) in
      rw e (n, at, c ∷ id, called, click-group groups n i c id called)

-- Where the agents and the groups of the data are called by their ids, which are not empty, after
-- `agent-` and `group-`, a click on any node of the graph opens a drawer that fetches the details of an
-- agent or a group of the data, by its id.
pub click-Shows :
    (s : TopologyPage) (d : TopologyData) (ns : List TopologyNode) (level : Level) (m : FlowNode)
    → d.nodes ≡ some ns
    → All IsNamed ns
    → In m (layout_nodes (some d) level)
    → Shows s level ns m
unfolding layout_nodes
click-Shows s d ns level m e named h = nodes_at-Shows s level d.groups ns m named (rw e at h)
