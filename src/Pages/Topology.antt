-- ===== src/Pages/Topology.antt =====
-- ui/src/pages/Topology.tsx: the page of the topology, which opens the details of a node that is
-- clicked in the graph or chosen in the sidebar (ui/src/components/topology/DisplaySidebar.tsx).
pub mod Sidebar
pub mod Counts
pub mod Clicked
mod Tests
use otel_hive.Base.{Bool, true, false, Option, none, some, List, [], ◌∷◌, take, if◌then◌else◌}
use otel_hive.Text.{Text, text, remove_first}
use otel_hive.Topology.{
  Level, instance_level, group_level, FlowData, agent_data, group_data, FlowNode,
}

pub record TopologyPage : Type 0 where
  pub refreshing : Bool
  pub selected_agent_id : Option Text
  pub drawer_open : Bool
  pub selected_group_id : Option Text
  pub group_drawer_open : Bool
  pub topology_level : Level

-- What the sidebar hands over for an item, its name included.
pub data SidebarNode : Type 0 where
  agent_item : (id name : Text) → SidebarNode
  group_item : (id name : Text) → SidebarNode

-- `agent.name || agent.id.slice(0, 8)`
abbrev pub item_name : (id name : Text) → Text
item_name id [] = take 8 id
item_name id (c ∷ name) = c ∷ name

abbrev pub agent_entry : (id name : Text) → SidebarNode
agent_entry id name = agent_item id (item_name id name)

pub data TopologyEvent : Type 0 where
  press_refresh refreshed : TopologyEvent
  click_node : FlowNode → TopologyEvent
  select_node : SidebarNode → TopologyEvent
  set_drawer set_group_drawer : Bool → TopologyEvent
  set_level : Level → TopologyEvent

abbrev pub open_agent : Text → TopologyPage → TopologyPage
open_agent id s = record s { selected_agent_id = some id; drawer_open = true }

abbrev pub open_group : Text → TopologyPage → TopologyPage
open_group id s = record s { selected_group_id = some id; group_drawer_open = true }

-- A node of the graph has the type that its data has.
unfoldable pub on_node_click : TopologyPage → Text → FlowData → TopologyPage
unfolding remove_first
on_node_click s id (agent_data name status group) = open_agent (remove_first id (text "agent-")) s
on_node_click s id (group_data name status count) = open_group (remove_first id (text "group-")) s

abbrev pub handle_node_select : TopologyPage → SidebarNode → TopologyPage
handle_node_select s (agent_item id name) = open_agent id s
handle_node_select s (group_item id name) = open_group id s

unfoldable pub topology_step : TopologyPage → TopologyEvent → TopologyPage
unfolding on_node_click
topology_step s press_refresh = record s { refreshing = true }
topology_step s refreshed = record s { refreshing = false }
topology_step s (click_node n) = on_node_click s n.id n.data_
topology_step s (select_node n) = handle_node_select s n
topology_step s (set_drawer shown) = record s { drawer_open = shown }
topology_step s (set_group_drawer shown) = record s { group_drawer_open = shown }
topology_step s (set_level level) = record s { topology_level = level }
