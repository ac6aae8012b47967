-- ===== src/Telemetry.antt =====
-- ui/src/components/shared: the logs (TelemetryLogsView.tsx) and the metrics
-- (TelemetryMetricsView.tsx) of an agent or of a group. Times are milliseconds; `clock` is the time of
-- day that the browser writes for a stamp. The queries are answered by SWR's cache, or by the server.
pub mod Keys
pub mod Timeline
mod Tests
use otel_hive.Base.{
  ℕ, ◌+◌, ◌-◌, Bool, true, false, not, ◌&&◌, ◌||◌, Option, none, some, List, [], ◌∷◌, ◌++◌, take,
  length, ltb, if◌then◌else◌,
}
use otel_hive.Text.{Text, text, text_eq, truthy, decimal}
use otel_hive.Metrics.{MetricData}
use otel_hive.Metrics.Card.{slice_last}

pub data EntityType : Type 0 where
  agent_type group_type : EntityType

-- `agentId ? "agent" : "group"`
abbrev pub entity_type : Option Text → EntityType
entity_type agent_id = elim (truthy agent_id) [ none ↦ group_type | some id ↦ agent_type ]

abbrev pub entity_word : EntityType → Text
entity_word agent_type = text "agent"
entity_word group_type = text "group"

abbrev pub or_undefined : Option Text → Text
or_undefined none = text "undefined"
or_undefined (some s) = s

-- `agentId || groupId`, as a template literal writes it.
abbrev pub entity_id : Option Text → Option Text → Text
entity_id agent_id group_id = elim (truthy agent_id) [ none ↦ or_undefined group_id | some id ↦ id ]

abbrev pub entity_title : EntityType → Text
entity_title agent_type = text "Agent Logs"
entity_title group_type = text "Group Logs"

-- `title || …`
unfoldable pub display_title : Option Text → Option Text → Text
display_title title agent_id = elim (truthy title) [
  | none ↦ entity_title (entity_type agent_id)
  | some t ↦ t
]

-- The items of the choice of severities.
pub data SeverityFilter : Type 0 where
  all error warn info debug : SeverityFilter

abbrev pub severity_name : SeverityFilter → Text
severity_name all = text "all"
severity_name error = text "error"
severity_name warn = text "warn"
severity_name info = text "info"
severity_name debug = text "debug"

pub record LogsQuery : Type 0 where
  pub agent_id : Option Text
  pub group_id : Option Text
  pub severity : Option Text
  pub search : Option Text
  pub start_time : ℕ
  pub end_time : ℕ
  pub limit : ℕ

pub record LogsFilter : Type 0 where
  pub severity : SeverityFilter
  pub search : Text

unfoldable pub logs_key : Option Text → Option Text → LogsFilter → Text
logs_key agent_id group_id f =
    (entity_word (entity_type agent_id) ++ text "-logs-" ++ entity_id agent_id group_id ++ text "-")
    ++ (severity_name f.severity ++ (b'-' ∷ f.search))

abbrev pub severity_param : SeverityFilter → Option Text
severity_param all = none
severity_param severity = some (severity_name severity)

-- The logs of the last hour.
unfoldable pub logs_query : Option Text → Option Text → LogsFilter → (now : ℕ) → LogsQuery
logs_query agent_id group_id f now = record {
  agent_id = truthy agent_id;
  group_id = truthy group_id;
  severity = severity_param f.severity;
  search = truthy (some f.search);
  start_time = now - 3600000;
  end_time = now;
  limit = 100;
}

pub record LogsView (L : Type 0) : Type 0 where
  pub logs_data : List L
  pub filter : LogsFilter

pub data LogsEvent (L : Type 0) : Type 0 where
  set_severity_filter : SeverityFilter → LogsEvent L
  set_search_filter : Text → LogsEvent L
  clear_filters : LogsEvent L
  -- A fetcher of the view is answered, for whichever filter it was called.
  fetched : Option (List L) → LogsEvent L

-- `result.logs || []`
abbrev pub or_nil : {L : Type 0} → Option (List L) → List L
or_nil none = []
or_nil (some logs) = logs

unfoldable pub logs_step : {L : Type 0} → LogsView L → LogsEvent L → LogsView L
logs_step s (set_severity_filter severity) = record s {
  filter = record { severity = severity; search = s.filter.search };
}
logs_step s (set_search_filter search) = record s {
  filter = record { severity = s.filter.severity; search = search };
}
logs_step s clear_filters = record s { filter = record { severity = all; search = [] } }
logs_step s (fetched logs) = record s { logs_data = or_nil logs }

unfoldable pub logs_run : {L : Type 0} → LogsView L → List (LogsEvent L) → LogsView L
unfolding logs_step
logs_run s [] = s
logs_run s (e ∷ es) = logs_run (logs_step s e) es

unfoldable pub log_count_text : ℕ → Text
unfolding decimal
log_count_text n =
    if ltb 0 n then decimal n ++ text " logs in last hour" else text "No logs available"

abbrev pub is_all : SeverityFilter → Bool
is_all all = true
is_all _ = false

abbrev pub has_active_filters : LogsFilter → Bool
has_active_filters f = not (is_all f.severity) || ltb 0 (length f.search)

unfoldable pub metrics_key : Option Text → Option Text → Text
metrics_key agent_id group_id =
    entity_word (entity_type agent_id) ++ text "-metrics-" ++ entity_id agent_id group_id

pub record MetricsQuery : Type 0 where
  pub agent_id : Option Text
  pub group_id : Option Text
  pub start_time : ℕ
  pub end_time : ℕ
  pub limit : ℕ

abbrev pub metrics_query : Option Text → Option Text → (now : ℕ) → MetricsQuery
metrics_query agent_id group_id now = record {
  agent_id = truthy agent_id;
  group_id = truthy group_id;
  start_time = now - 3600000;
  end_time = now;
  limit = 100;
}

-- One point of the timeline, an entry of `grouped`.
pub record Slot : Type 0 where
  pub time : Text
  pub count : ℕ
  pub total_value : ℕ

module _ (clock : Text → Text) where
  abbrev pub counted : MetricData → Slot → Slot
  counted m s = record s { count = s.count + 1; total_value = s.total_value + m.value }

  -- The body of the `reduce`: the slot of the time of day is there, or is created at the end.
  unfoldable pub add_metric : MetricData → List Slot → List Slot
  unfolding text_eq
  add_metric m [] = counted m (record { time = clock m.timestamp; count = 0; total_value = 0 }) ∷ []
  add_metric m (s ∷ slots) =
      if text_eq s.time (clock m.timestamp) then counted m s ∷ slots else s ∷ add_metric m slots

  unfoldable pub slots_from : List MetricData → List Slot → List Slot
  unfolding add_metric
  slots_from [] slots = slots
  slots_from (m ∷ ms) slots = slots_from ms (add_metric m slots)

  -- `chartData`, the last 20 slots.
  unfoldable pub timeline : List MetricData → List Slot
  unfolding slots_from slice_last
  timeline metrics = slice_last 20 (slots_from metrics [])

-- The metrics that are listed below the timeline.
abbrev pub recent_metrics : List MetricData → List MetricData
recent_metrics metrics = take 20 metrics
