-- ===== src/Pages/Topology/Tests.antt =====
-- Clicks on the nodes of a small topology, and an instance of the theorem on them.
use otel_hive.Base.{◌≡◌, refl, true, false, none, some, List, [], ◌∷◌, here, there}
use otel_hive.Text.{Text, text}
use otel_hive.Topology.{
  Kind, agent, group, instance_level, TopologyNode, TopologyData, agent_node, layout_nodes,
}
use otel_hive.Pages.Topology.{TopologyPage, select_node, agent_entry, topology_step}
use otel_hive.Pages.Topology.Clicked.{Shows, click-Shows}
use otel_hive.Agents.{Labels, Agent, Group, online, offline, AgentStatus}
use otel_hive.Base.{All, length, Option, List}
use otel_hive.Pages.Topology.{group_item}
use otel_hive.Pages.Topology.Sidebar.{
  SidebarRow, groups_section, sidebar_section, green, agents_section, message,
}
use otel_hive.Pages.Topology.Counts.{IsCounted, groups_section-IsCounted}

abbrev page : TopologyPage
page = record {
  refreshing = false;
  selected_agent_id = none;
  drawer_open = false;
  selected_group_id = none;
  group_drawer_open = false;
  topology_level = instance_level;
}

abbrev node : Text → Kind → TopologyNode
node id kind = record { id = id; kind = kind; name = id; status = text "online"; group_name = none }

-- The id holds the prefix once more.
abbrev db : TopologyNode
db = node (text "agent-agent-db") agent

abbrev nodes : List TopologyNode
nodes = node (text "group-prod") group ∷ node (text "agent-web") agent ∷ db ∷ []

abbrev topology : TopologyData
topology = record { nodes = some nodes; edges = none; groups = none }

from_sidebar :
    (topology_step page (select_node (agent_entry (text "0123456789") []))).selected_agent_id
    ≡ some (text "0123456789")
unfolding topology_step
from_sidebar = refl

click-Shows_example : Shows page instance_level nodes (agent_node db 1)
unfolding layout_nodes
click-Shows_example =
    click-Shows page topology nodes instance_level (agent_node db 1) refl
      ((b'p', text "rod", refl), ((b'w', text "eb", refl), ((b'a', text "gent-db", refl), tt)))
      (there here)

abbrev production : Labels
production = (text "env", text "prod") ∷ []

abbrev an_agent : Text → AgentStatus → Option Labels → Agent
an_agent id status labels = record {
  id = id;
  name = [];
  status = status;
  last_seen = [];
  group_id = none;
  labels = labels;
}

abbrev agents : List Agent
agents = an_agent (text "web") online none ∷ an_agent (text "db") offline (some production) ∷ []

abbrev a_group : Text → Option Labels → Group
a_group id labels = record { id = id; name = id; labels = labels }

-- The first and the last group have one id, and are both shown with the count of the last.
abbrev groups : List Group
groups =
    a_group (text "g") (some production) ∷ a_group (text "all") none ∷ a_group (text "g") none ∷ []

abbrev group_line : Text → Text → SidebarRow
group_line id detail = record { node = group_item id id; title = id; detail = detail; mark = none }

abbrev group_lines : List SidebarRow
group_lines =
    group_line (text "g") (text "2 agents")
    ∷ group_line (text "all") (text "2 agents")
    ∷ group_line (text "g") (text "2 agents")
    ∷ []

groups_section-IsCounted_example :
    All (IsCounted page groups agents) group_lines
    × ((groups_section true (some groups) (some agents)).badge ≡ 3)
    × (length group_lines ≡ 3)
unfolding groups_section
groups_section-IsCounted_example =
    groups_section-IsCounted page true (some groups) (some agents) group_lines refl

-- An agent without a name is shown by its id.
unnamed :
    agents_section true (some (an_agent (text "0123456789") online none ∷ []))
    ≡ sidebar_section true [] (
        record {
          node = agent_entry (text "0123456789") [];
          title = text "01234567";
          detail = text "online";
          mark = some green;
        }
        ∷ [])
unfolding agents_section
unnamed = refl

none_fetched :
    agents_section true none ≡ record { badge = 0; body = some (message (text "No agents found")) }
unfolding agents_section
none_fetched = refl
