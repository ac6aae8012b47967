-- ===== src/Topology/Tests.antt =====
-- The layout of a small topology, and instances of its theorems.
use otel_hive.Base.{◌≡◌, refl, none, some, List, [], ◌∷◌, map}
use otel_hive.Text.{Text, text, starts_with}
use otel_hive.Topology.{
  Kind, agent, group, instance_level, TopologyNode, TopologyData, TopologyEdge, layout_edges,
  FlowEdge,
}

abbrev node : Text → Kind → TopologyNode
node id kind = record { id = id; kind = kind; name = id; status = text "online"; group_name = none }

abbrev web : TopologyNode
web = node (text "agent-web") agent

abbrev db : TopologyNode
db = node (text "agent-db") agent

abbrev nodes : List TopologyNode
nodes = web ∷ node (text "group-prod") group ∷ db ∷ []

abbrev between : Text → Text → TopologyEdge
between source target = record { source = source; target = target; label = none }

abbrev topology : TopologyData
topology = record {
  nodes = some nodes;
  edges = some (
      between (text "agent-web") (text "agent-db")
      ∷ between (text "agent-web") (text "group-prod")
      ∷ []);
  groups = none;
}

-- An edge from an agent to a group is on neither level.
one_edge :
    map (λ (e : FlowEdge). e.target) (layout_edges (some topology) instance_level)
    ≡ text "agent-db" ∷ []
unfolding layout_edges starts_with
one_edge = refl
