-- ===== src/Details/Tests.antt =====
-- Restarts of a collector and of a group, and an instance of the theorem on the drawers.
use otel_hive.Base.{◌≡◌, refl, true, false, none, some, List, [], ◌∷◌, inl, length}
use otel_hive.Text.{Text, text}
use otel_hive.Agents.{online, offline}
use otel_hive.Details.{
  AgentState, agent_state, group_state, failure, RestartResponse, DrawerEvent, given, fetched,
  press_restart, restarted, restart_failed, timer_ends, can_restart_agent, agent_summary,
  group_summary, drawer_run, agent_run, group_run, mounted,
}
use otel_hive.Details.Overview.{AgentStats, agent_stats, metrics_items, stats_of}
use otel_hive.Details.Settled.{IsSettled, drawer_run-IsSettled}

abbrev response : RestartResponse
response = record { success_ = true; message = text "Sent"; restarted_count = 12; failed_count = 1 }

abbrev refusal : RestartResponse
refusal = record response { success_ = false; message = text "Refused" }

group_news : group_summary response ≡ text "Sent (12 restarted, 1 failed)"
unfolding group_summary
group_news = refl

abbrev running : AgentState
running = agent_state online (some (text "accepts_restart_command" ∷ []))

abbrev stopped : AgentState
stopped = agent_state offline (some (text "accepts_restart_command" ∷ []))

abbrev show_agent : Text → AgentState → DrawerEvent AgentState
show_agent id state = given (some id) true (some state)

-- An agent that is offline is not restarted, and a second press waits for the first answer.
one_restart :
    (agent_run mounted (
      show_agent (text "a") stopped
      ∷ press_restart
      ∷ fetched (some running)
      ∷ press_restart
      ∷ press_restart
      ∷ [])).sent
    ≡ text "a" ∷ []
unfolding agent_run
one_restart = refl

-- The timer of an earlier success clears the message of a later failure.
cleared_early :
    (agent_run mounted (
      show_agent (text "a") running
      ∷ press_restart
      ∷ restarted response
      ∷ press_restart
      ∷ restarted refusal
      ∷ timer_ends
      ∷ [])).restart_message
    ≡ none
unfolding agent_run
cleared_early = refl

-- The failure of one agent is shown with the details of another.
wrong_agent :
    (agent_run mounted (
      show_agent (text "a") running
      ∷ press_restart
      ∷ show_agent (text "b") running
      ∷ restart_failed none
      ∷ [])).restart_message
    ≡ some (record { type = failure; text_ = text "Failed to restart agent" })
unfolding agent_run
wrong_agent = refl

-- A group without agents is not restarted.
no_agents :
    (group_run mounted (
      given (some (text "g")) true (some (group_state (some (text "web")) (some 0)))
      ∷ press_restart
      ∷ [])).sent
    ≡ []
unfolding group_run
no_agents = refl

abbrev news : List (DrawerEvent AgentState)
news = show_agent (text "a") running ∷ press_restart ∷ restarted response ∷ []

drawer_run-IsSettled_example :
    IsSettled (drawer_run can_restart_agent agent_summary (text "Failed") mounted news)
drawer_run-IsSettled_example =
    drawer_run-IsSettled can_restart_agent agent_summary (text "Failed") news mounted
      (record { one = inl (refl, refl); timed = λ m e k. cc })

abbrev no_data : AgentStats
no_data = record { metric_count = 0; log_count = 12; trace_count = 0; throughput = text "0.40" }

no_metrics :
    agent_stats no_data
    ≡ (text "Metrics", text "No data received")
      ∷ (text "Logs", text "12")
      ∷ (text "Traces", text "No data received")
      ∷ (text "Throughput", text "0.40 rps")
      ∷ []
unfolding agent_stats
no_metrics = refl

four_items : length (metrics_items (stats_of (some (some 2, none)))) ≡ 4
unfolding stats_of metrics_items
four_items = refl
