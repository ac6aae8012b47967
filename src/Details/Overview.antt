-- ===== src/Details/Overview.antt =====
-- ui/src/components/agent-details/AgentOverview.tsx, group-details/GroupOverview.tsx and
-- group-details/GroupAgents.tsx: what the drawers list of an agent and of a group. `local_time` is how
-- the browser writes a stamp, and the rates, which are fractions, are texts already.
use otel_hive.Base.{ℕ, zero, suc, Option, none, some, List, [], ◌∷◌, ◌++◌, map, if◌then◌else◌}
use otel_hive.Text.{Text, text, text_eq, truthy, decimal}
use otel_hive.Agents.{Labels}

-- A label with what stands beside it.
abbrev pub Item : Type 0
Item = Text × Text

pub record AgentInfo : Type 0 where
  pub id : Text
  pub version : Text
  pub status : Text
  pub group_name : Option Text
  pub last_seen : Text
  pub labels : Option Labels
  pub capabilities : Option (List Text)

pub record AgentStats : Type 0 where
  pub metric_count : ℕ
  pub log_count : ℕ
  pub trace_count : ℕ
  pub throughput : Text

abbrev pub or_no_group : Option Text → Text
or_no_group none = text "No Group"
or_no_group (some name) = name

unfoldable pub agent_items : (Text → Text) → AgentInfo → List Item
agent_items local_time a =
    (text "ID", a.id)
    ∷ (text "Version", a.version)
    ∷ (text "Status", a.status)
    ∷ (text "Group", or_no_group (truthy a.group_name))
    ∷ (text "Last Seen", local_time a.last_seen)
    ∷ []

unfoldable pub count_text : ℕ → Text
unfolding decimal
count_text zero = text "No data received"
count_text (suc n) = decimal (suc n)

unfoldable pub agent_stats : AgentStats → List Item
unfolding count_text
agent_stats m =
    (text "Metrics", count_text m.metric_count)
    ∷ (text "Logs", count_text m.log_count)
    ∷ (text "Traces", count_text m.trace_count)
    ∷ (text "Throughput", m.throughput ++ text " rps")
    ∷ []

-- The badges of the labels, of which there is a card only if there is one.
abbrev pub label_badges : Option Labels → Option (List Text)
label_badges none = none
label_badges (some []) = none
label_badges (some (l ∷ labels)) =
    some (map (λ (e : Text × Text). e.0 ++ (b'=' ∷ e.1)) (l ∷ labels))

abbrev pub capability_badges : Option (List Text) → Option (List Text)
capability_badges none = none
capability_badges (some []) = none
capability_badges (some (c ∷ capabilities)) = some (c ∷ capabilities)

pub record GroupInfo : Type 0 where
  pub id : Text
  pub name : Text
  pub created_at : Text
  pub updated_at : Text

unfoldable pub group_items : (Text → Text) → GroupInfo → List Item
group_items local_time g =
    (text "ID", g.id)
    ∷ (text "Name", g.name)
    ∷ (text "Created", local_time g.created_at)
    ∷ (text "Updated", local_time g.updated_at)
    ∷ []

pub record GroupStats : Type 0 where
  pub agent_count : ℕ
  pub metric_count : ℕ
  pub log_count : ℕ
  pub trace_count : ℕ
  pub throughput : Option Text

-- `x || 0`
abbrev pub or_zero : Option ℕ → ℕ
or_zero none = 0
or_zero (some n) = n

-- What GroupDetailsDrawer.tsx makes of the topology of the group, if it is fetched.
unfoldable pub stats_of : Option (Option ℕ × Option ℕ) → Option GroupStats
stats_of none = none
stats_of (some (agent_count, metric_count)) = some (record {
  agent_count = or_zero agent_count;
  metric_count = or_zero metric_count;
  log_count = 0;
  trace_count = 0;
  throughput = none;
})

abbrev pub throughput_item : Option Text → List Item
throughput_item none = []
throughput_item (some rate) = (text "Throughput", rate ++ text " rps") ∷ []

unfoldable pub metrics_items : Option GroupStats → List Item
unfolding decimal
metrics_items none = []
metrics_items (some m) =
    (text "Agents", decimal m.agent_count)
    ∷ (text "Metrics", decimal m.metric_count)
    ∷ (text "Logs", decimal m.log_count)
    ∷ (text "Traces", decimal m.trace_count)
    ∷ throughput_item m.throughput

pub data StatusIcon : Type 0 where
  check_circle x_circle alert_circle server : StatusIcon

-- The same in the table of a group's agents and in the drawer of an agent.
unfoldable pub status_icon : Text → StatusIcon
unfolding text_eq
status_icon status =
    if text_eq status (text "online")
    then check_circle
    else if text_eq status (text "offline")
    then x_circle
    else if text_eq status (text "error")
    then alert_circle
    else server

unfoldable pub status_badge : Text → Text
unfolding text_eq
status_badge status =
    if text_eq status (text "online")
    then text "Online"
    else if text_eq status (text "offline")
    then text "Offline"
    else if text_eq status (text "error")
    then text "Error"
    else text "Unknown"

-- The icon beside the title of a group.
abbrev pub group_icon : Option ℕ → StatusIcon
group_icon none = x_circle
group_icon (some zero) = x_circle
group_icon (some (suc n)) = check_circle
