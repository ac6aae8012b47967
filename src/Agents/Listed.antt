-- ===== src/Agents/Listed.antt =====
-- Agents.tsx: the list is the agents that pass the filter, in order of when they were seen.
use otel_hive.Base.{
  ℕ, Bool, Option, none, some, List, IsSorted, IsOrder, sort-IsSorted, sort-Perm, up-IsOrder,
  down-IsOrder,
}
use mathlib.Core.List.{Perm}
use mathlib.Core.List.Perm
use otel_hive.Text.{Text}
use otel_hive.Agents.{
  Agent, SortOrder, asc, desc, filtered, compare_seen, filtered_and_sorted_agents,
}

module _ (time_of : Text → ℕ) where
  compare_seen-IsOrder : (order : SortOrder) → IsOrder (compare_seen time_of order)
  compare_seen-IsOrder asc = up-IsOrder (λ (a : Agent). time_of a.last_seen)
  compare_seen-IsOrder desc = down-IsOrder (λ (a : Agent). time_of a.last_seen)

  -- In the order that is chosen, where one is.
  abbrev pub InOrder : Option SortOrder → List Agent → Type 0
  InOrder none shown = Unit
  InOrder (some order) shown = IsSorted (compare_seen time_of order) shown

  -- The agents of the page are those that pass the filter, each as often as in the data, in the order
  -- that is chosen: by the time that they were last seen, up or down.
  pub filtered_and_sorted_agents-Perm :
      (show_active_only : Bool) (order : Option SortOrder) (agents : List Agent)
      → Perm
          (filtered_and_sorted_agents time_of show_active_only order agents)
          (filtered show_active_only agents)
        × InOrder order (filtered_and_sorted_agents time_of show_active_only order agents)
  unfolding filtered_and_sorted_agents
  filtered_and_sorted_agents-Perm show_active_only none agents = (Perm.refl _, tt)
  filtered_and_sorted_agents-Perm show_active_only (some order) agents = (
    sort-Perm (compare_seen time_of order) (filtered show_active_only agents),
    sort-IsSorted (compare_seen time_of order) (compare_seen-IsOrder order)
        (filtered show_active_only agents),
  )
