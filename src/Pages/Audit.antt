-- ===== src/Pages/Audit.antt =====
-- ui/src/pages/AuditLog.tsx: the pages of the audit log and its filter. ui/src/components/
-- agent-details/AgentConfigPipeline.tsx: the text that is sent to an agent.
pub mod Reached
pub mod Entries
mod Tests
use otel_hive.Base.{
  ℕ, suc, ◌+◌, ◌-◌, ◌/◌, ◌%◌, max, Bool, true, false, Option, none, some, List, [], ◌∷◌, ◌++◌, ltb,
  leb, if◌then◌else◌,
}
use otel_hive.Text.{Text, text, text_eq, truthy, decimal}
use otel_hive.Clients.{ApiRequest, AgentsCall, send_config_to_agent, list_audit_log}

-- `PAGE_LIMIT`
abbrev pub page_limit : ℕ
page_limit = 50

-- `Math.max(1, Math.ceil(total / PAGE_LIMIT))`
unfoldable pub total_pages : ℕ → ℕ
total_pages total = max 1 ((total + 49) / page_limit)

pub record AuditPage : Type 0 where
  pub page : ℕ
  pub event_filter : Text

pub data AuditEvent : Type 0 where
  choose_filter : Text → AuditEvent
  press_previous press_next : AuditEvent

unfoldable pub handle_filter_change : Text → AuditPage
unfolding text_eq
handle_filter_change value = record {
  page = 1;
  event_filter = if text_eq value (text "all") then [] else value;
}

-- The step, with the total of the answer that is shown; a button at the end of the range is disabled,
-- and the clamps come to the same.
unfoldable pub audit_step : ℕ → AuditPage → AuditEvent → AuditPage
unfolding total_pages handle_filter_change
audit_step total s (choose_filter value) = handle_filter_change value
audit_step total s press_previous =
    if leb s.page 1 then s else (record s { page = max 1 (s.page - 1) })
audit_step total s press_next = if leb (total_pages total) s.page then s else (record s {
  page = if leb (total_pages total) (s.page + 1) then total_pages total else s.page + 1;
})

-- The request of the page that is shown.
unfoldable pub audit_request : {D : Type 0} → (List (Text × Text) → Text) → AuditPage → ApiRequest D
unfolding list_audit_log
audit_request query_string s =
    list_audit_log query_string s.page page_limit (truthy (some s.event_filter))

-- The text that the editor of an agent shows and sends: the edited one, or else the configuration that
-- the agent runs, or else the first that is stored for it.
unfoldable pub current_config : Text → Option Text → Option Text → Text
current_config (c ∷ edited) effective stored = c ∷ edited
current_config [] effective stored = elim (truthy effective) [
  | some t ↦ t
  | none ↦ elim (truthy stored) [ some t ↦ t | none ↦ [] ]
]

-- `handleSendConfig`, where the agent accepts remote configurations.
unfoldable pub handle_send_config :
    Bool → Text → Text → Option Text → Option Text → Option AgentsCall
unfolding current_config
handle_send_config true agent_id edited effective stored =
    some (send_config_to_agent agent_id (current_config edited effective stored))
handle_send_config false agent_id edited effective stored = none
