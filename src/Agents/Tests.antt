-- ===== src/Agents/Tests.antt =====
-- A list of agents, and instances of the theorems. The time of a stamp is its length here.
use otel_hive.Base.{◌≡◌, ◌↔◌, refl, true, false, Option, none, some, List, [], ◌∷◌, length, map}
use otel_hive.Text.{Text, text}
use otel_hive.Validation.Types.{ok, throws}
use otel_hive.Agents.{
  Labels, Agent, AgentStatus, online, offline, desc, filtered_and_sorted_agents, group_agent_count,
  filtered,
}
use otel_hive.Agents.Page.{AgentRow, agent_rows, initial_page, click_group, agents_run}
use otel_hive.Agents.Shown.{Unlabelled, agent_rows_throws_iff}

abbrev agent : Text → AgentStatus → Text → Option Labels → Agent
agent id status last_seen labels = record {
  id = id;
  name = id;
  status = status;
  last_seen = last_seen;
  group_id = none;
  labels = labels;
}

abbrev production : Labels
production = (text "env", text "prod") ∷ []

abbrev agents : List Agent
agents =
    agent (text "a") online (text "1") none
    ∷ agent (text "b") offline (text "123") (some production)
    ∷ agent (text "c") online (text "12") (some production)
    ∷ []

newest_first :
    map (λ (a : Agent). a.id) (filtered_and_sorted_agents length true (some desc) agents)
    ≡ text "c" ∷ text "a" ∷ []
unfolding filtered_and_sorted_agents
newest_first = refl

-- A group with no labels counts every agent.
unlabelled : group_agent_count agents (record { id = text "g"; name = text "g"; labels = none }) ≡ 3
unfolding group_agent_count
unlabelled = refl

-- The first agent has no labels, and the page cannot be drawn.
agent_rows_throws_iff_example :
    (agent_rows length (λ t. t) [] agents initial_page ≡ throws)
    ↔ Unlabelled (filtered initial_page.show_active_only agents)
agent_rows_throws_iff_example = agent_rows_throws_iff length (λ t. t) [] agents initial_page

abbrev labelled : Agent
labelled =
    agent (text "d") offline (text "1")
      (some ((text "a", []) ∷ (text "b", []) ∷ (text "c", []) ∷ []))

two_labels :
    elim (agent_rows length (λ t. t) [] (labelled ∷ []) initial_page) [
      | throws ↦ []
      | ok rows ↦ map (λ (r : AgentRow). r.more) rows
    ]
    ≡ some 1 ∷ []
unfolding agent_rows
two_labels = refl

-- A click on the group of an agent leaves the drawer of agents closed.
group_only : (agents_run initial_page (click_group (text "g") ∷ [])).drawer_open ≡ false
unfolding agents_run
group_only = refl
