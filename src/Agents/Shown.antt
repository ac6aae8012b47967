-- ===== src/Agents/Shown.antt =====
-- Agents.tsx: when the page cannot be drawn.
use otel_hive.Base.{
  ℕ, ◌≡◌, ◌↔◌, refl, sym, ap, ◌∙◌, inl, inr, Option, none, some, List, [], ◌∷◌, In, here, there,
  In-cons, sort-In, Option-cases,
}
use otel_hive.Text.{Text}
use otel_hive.Validation.Types.{Throws, ok, throws}
use otel_hive.Agents.{
  Agent, Group, SortOrder, filtered, compare_seen, sorted_agents, filtered_and_sorted_agents,
}
use otel_hive.Agents.Page.{AgentsPage, AgentRow, both, each_row, agent_rows}

-- An agent of the list that came without labels.
abbrev pub Unlabelled : List Agent → Type 0
Unlabelled agents = (a : Agent) × In a agents × (a.labels ≡ none)

module _ (local_time : Text → Text) (groups : List Group) where
  both-throws :
      (row : AgentRow) (rest : Throws (List AgentRow)) → both (ok row) rest ≡ throws → rest ≡ throws
  both-throws row throws h = refl
  both-throws row (ok rows) h = cc

  each_row-Unlabelled :
      (agents : List Agent) → each_row local_time groups agents ≡ throws → Unlabelled agents
  each_row-Unlabelled [] h = cc
  each_row-Unlabelled (a ∷ agents) h = elim (Option-cases a.labels) [
    | inl e ↦ (a, here, e)
    | inr (labels, e) ↦
        let (b, i, f) =
          each_row-Unlabelled agents
            (both-throws _ (each_row local_time groups agents) (rw e at h)) in
        (b, there i, f)
  ]

  Unlabelled-each_row :
      (agents : List Agent) (a : Agent)
      → In a agents
      → a.labels ≡ none
      → each_row local_time groups agents ≡ throws
  Unlabelled-each_row [] a i e = elim i [ ]
  Unlabelled-each_row (b ∷ agents) a i e = elim (In-cons i) [
    | inl same ↦ let f : b.labels ≡ none = ap (λ (x : Agent). x.labels) (sym same) ∙ e in rw f refl
    | inr j ↦ elim (Option-cases b.labels) [
      | inl f ↦ rw f refl
      | inr (labels, f) ↦ rw (f, Unlabelled-each_row agents a j e) refl
    ]
  ]

In-sorted_agents :
    (time_of : Text → ℕ) (order : Option SortOrder) (agents : List Agent) {a : Agent}
    → In a (sorted_agents time_of order agents) ↔ In a agents
In-sorted_agents time_of none agents = (λ i. i, λ i. i)
In-sorted_agents time_of (some order) agents = sort-In (compare_seen time_of order) agents

-- The page of the agents throws exactly where one of the agents that pass its filter came without
-- labels: that agent then takes the whole list away.
pub agent_rows_throws_iff :
    (time_of : Text → ℕ) (local_time : Text → Text) (groups : List Group) (agents : List Agent)
    (s : AgentsPage)
    → (agent_rows time_of local_time groups agents s ≡ throws)
      ↔ Unlabelled (filtered s.show_active_only agents)
unfolding agent_rows filtered_and_sorted_agents
agent_rows_throws_iff time_of local_time groups agents s =
    let same = λ (a : Agent).
      In-sorted_agents time_of s.sort_order (filtered s.show_active_only agents) {a = a} in
    (
      λ h. let (a, i, e) = each_row-Unlabelled local_time groups _ h in (a, (same a).0 i, e),
      λ (a, i, e). Unlabelled-each_row local_time groups _ a ((same a).1 i) e,
    )
