-- ===== src/Agents/Page.antt =====
-- Agents.tsx: the state of the page, and a row of its list. `local_time` is how the browser writes a
-- stamp.
use otel_hive.Base.{
  ℕ, ◌-◌, Bool, true, false, Option, none, some, List, [], ◌∷◌, length, take, ltb, if◌then◌else◌,
}
use otel_hive.Text.{Text, text, truthy}
use otel_hive.Validation.Types.{Throws, ok, throws}
use otel_hive.Agents.{
  AgentStatus, online, offline, error, Labels, Agent, Group, SortOrder, desc, handle_sort_toggle,
  group_label, filtered_and_sorted_agents,
}

pub record AgentsPage : Type 0 where
  pub refreshing : Bool
  pub selected_agent_id : Option Text
  pub drawer_open : Bool
  pub selected_group_id : Option Text
  pub group_drawer_open : Bool
  pub sort_order : Option SortOrder
  pub show_active_only : Bool

pub data AgentsEvent : Type 0 where
  press_refresh refreshed : AgentsEvent
  click_agent click_group : Text → AgentsEvent
  toggle_sort : AgentsEvent
  set_active_only set_drawer set_group_drawer : Bool → AgentsEvent

abbrev pub initial_page : AgentsPage
initial_page = record {
  refreshing = false;
  selected_agent_id = none;
  drawer_open = false;
  selected_group_id = none;
  group_drawer_open = false;
  sort_order = some desc;
  show_active_only = false;
}

-- A click on the group does not reach the row.
unfoldable pub agents_step : AgentsPage → AgentsEvent → AgentsPage
agents_step s press_refresh = record s { refreshing = true }
agents_step s refreshed = record s { refreshing = false }
agents_step s (click_agent id) = record s { selected_agent_id = some id; drawer_open = true }
agents_step s (click_group id) = record s { selected_group_id = some id; group_drawer_open = true }
agents_step s toggle_sort = record s { sort_order = handle_sort_toggle s.sort_order }
agents_step s (set_active_only active) = record s { show_active_only = active }
agents_step s (set_drawer shown) = record s { drawer_open = shown }
agents_step s (set_group_drawer shown) = record s { group_drawer_open = shown }

unfoldable pub agents_run : AgentsPage → List AgentsEvent → AgentsPage
unfolding agents_step
agents_run s [] = s
agents_run s (e ∷ es) = agents_run (agents_step s e) es

-- What a click on the group of a row does, where the agent has one.
unfoldable pub group_click : Agent → Option AgentsEvent
group_click a = elim (truthy a.group_id) [ none ↦ none | some id ↦ some (click_group id) ]

abbrev pub status_text : AgentStatus → Text
status_text online = text "Online"
status_text offline = text "Offline"
status_text error = text "Error"

pub record AgentRow : Type 0 where
  pub status : Text
  pub name : Text
  pub group : Text
  pub last_seen : Text
  pub labels : Labels
  pub more : Option ℕ

unfoldable pub labelled_row : (Text → Text) → List Group → Agent → Labels → AgentRow
unfolding group_label
labelled_row local_time groups a labels = record {
  status = status_text a.status;
  name = a.name;
  group = elim (truthy a.group_id) [ none ↦ text "No Group" | some id ↦ group_label groups id ];
  last_seen = local_time a.last_seen;
  labels = take 2 labels;
  more = if ltb 2 (length labels) then some (length labels - 2) else none;
}

-- `Object.entries` of null or undefined throws.
abbrev pub agent_row : (Text → Text) → List Group → Agent → Throws AgentRow
agent_row local_time groups a = elim a.labels [
  | none ↦ throws
  | some labels ↦ ok (labelled_row local_time groups a labels)
]

abbrev pub both : {A : Type 0} → Throws A → Throws (List A) → Throws (List A)
both throws rest = throws
both (ok row) throws = throws
both (ok row) (ok rows) = ok (row ∷ rows)

abbrev pub each_row : (Text → Text) → List Group → List Agent → Throws (List AgentRow)
each_row local_time groups [] = ok []
each_row local_time groups (a ∷ agents) =
    both (agent_row local_time groups a) (each_row local_time groups agents)

-- The rows of the page.
unfoldable pub agent_rows :
    (Text → ℕ) → (Text → Text) → List Group → List Agent → AgentsPage → Throws (List AgentRow)
unfolding filtered_and_sorted_agents labelled_row
agent_rows time_of local_time groups agents s =
    each_row local_time groups
      (filtered_and_sorted_agents time_of s.show_active_only s.sort_order agents)

-- What stands in place of no row.
abbrev pub empty_title : List Agent → Text
empty_title [] = text "No Agents Found"
empty_title (a ∷ agents) = text "No Matching Agents"
