-- ===== src/Pages/Topology/Sidebar.antt =====
-- ui/src/components/topology/DisplaySidebar.tsx: the sections of the groups and of the agents.
use otel_hive.Base.{
  ℕ, Bool, not, ◌||◌, Option, none, some, List, [], ◌∷◌, ◌++◌, map, length, if◌then◌else◌,
}
use otel_hive.Text.{Text, text, text_eq, decimal}
use otel_hive.Agents.{AgentStatus, online, offline, error, Agent, Group, group_agent_counts}
use otel_hive.Pages.Topology.{SidebarNode, group_item, agent_entry, item_name}

-- Which sections are expanded.
pub record Sidebar : Type 0 where
  pub groups_expanded : Bool
  pub agents_expanded : Bool

pub data SidebarEvent : Type 0 where
  toggle_groups toggle_agents : SidebarEvent

abbrev pub sidebar_step : Sidebar → SidebarEvent → Sidebar
sidebar_step s toggle_groups = record s { groups_expanded = not s.groups_expanded }
sidebar_step s toggle_agents = record s { agents_expanded = not s.agents_expanded }

pub data Dot : Type 0 where
  green red amber : Dot

abbrev pub dot : AgentStatus → Dot
dot online = green
dot error = red
dot offline = amber

abbrev pub status_word : AgentStatus → Text
status_word online = text "online"
status_word offline = text "offline"
status_word error = text "error"

-- A row, with the node that it hands over; `detail` is the line below its title.
pub record SidebarRow : Type 0 where
  pub node : SidebarNode
  pub title : Text
  pub detail : Text
  pub mark : Option Dot

-- `groupAgentCounts[id] || 0`, where a later group takes the place of an earlier one.
unfoldable pub count_at : List (Text × ℕ) → Text → Option ℕ
unfolding text_eq
count_at [] id = none
count_at ((k, n) ∷ counts) id = elim (count_at counts id) [
  | some later ↦ some later
  | none ↦ if text_eq k id then some n else none
]

abbrev pub count_or_zero : Option ℕ → ℕ
count_or_zero none = 0
count_or_zero (some n) = n

unfoldable pub agents_text : ℕ → Text
unfolding decimal
agents_text n = decimal n ++ text " agents"

unfoldable pub group_row : List (Text × ℕ) → Group → SidebarRow
unfolding count_at agents_text
group_row counts g = record {
  node = group_item g.id g.name;
  title = g.name;
  detail = agents_text (count_or_zero (count_at counts g.id));
  mark = none;
}

abbrev pub agent_item_row : Agent → SidebarRow
agent_item_row a = record {
  node = agent_entry a.id a.name;
  title = item_name a.id a.name;
  detail = status_word a.status;
  mark = some (dot a.status);
}

pub data SectionBody : Type 0 where
  message : Text → SectionBody
  rows : List SidebarRow → SectionBody

-- The number in the badge, and what is below it where the section is expanded.
pub record SidebarSection : Type 0 where
  pub badge : ℕ
  pub body : Option SectionBody

abbrev or_message : Text → List SidebarRow → SectionBody
or_message nothing [] = message nothing
or_message nothing (r ∷ rs) = rows (r ∷ rs)

abbrev pub sidebar_section : Bool → Text → List SidebarRow → SidebarSection
sidebar_section expanded nothing rs = record {
  badge = length rs;
  body = if expanded then some (or_message nothing rs) else none;
}

-- What is not fetched counts as an empty list.
abbrev pub or_none : {A : Type 0} → Option (List A) → List A
or_none none = []
or_none (some xs) = xs

unfoldable pub groups_section : Bool → Option (List Group) → Option (List Agent) → SidebarSection
unfolding group_agent_counts group_row
groups_section expanded groups agents =
    sidebar_section expanded (text "No groups found")
      (map (group_row (group_agent_counts (or_none groups) (or_none agents))) (or_none groups))

unfoldable pub agents_section : Bool → Option (List Agent) → SidebarSection
agents_section expanded agents =
    sidebar_section expanded (text "No agents found") (map agent_item_row (or_none agents))

pub data Press : Type 0 where
  click : Press
  key : Text → Press

-- The node that a row hands over.
unfoldable pub pressed_node : SidebarRow → Press → Option SidebarNode
unfolding text_eq
pressed_node r click = some r.node
pressed_node r (key k) =
    if text_eq k (text "Enter") || text_eq k (text " ") then some r.node else none
