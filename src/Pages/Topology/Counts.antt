-- ===== src/Pages/Topology/Counts.antt =====
-- DisplaySidebar.tsx: the number of agents that the sidebar shows beside a group.
use otel_hive.Base.{
  ◌≡◌, refl, sym, subst, All-map, ap, ◌∙◌, inl, inr, ℕ, suc, Bool, true, false, Option, none, some,
  List, [], ◌∷◌, length, keep, map, true-ne-false, ◌⊎◌, ◌↔◌, In, In-cons, here, there, All,
  length-map, Bool-cases,
}
use otel_hive.Text.{Text, text, text_eq}
use otel_hive.Text.Laws.{text_eq→eq, text_eq_refl}
use otel_hive.Agents.{
  Agent, Group, or_no_labels, label, matches, group_agent_count, group_agent_counts,
}
use otel_hive.Agents.Matched.{matches_iff}
use otel_hive.Pages.Topology.{TopologyPage, SidebarNode, group_item, topology_step, select_node}
use otel_hive.Pages.Topology.Sidebar.{
  count_at, count_or_zero, agents_text, SidebarRow, group_row, groups_section, rows, pressed_node,
  click, key, sidebar_section, or_none,
}

-- How many elements of a list have a property.
pub data Counts {A : Type 0} (P : A → Type 0) : List A → ℕ → Type 0 where
  none_left : Counts P [] 0
  has : {x : A} {xs : List A} {n : ℕ} → P x → Counts P xs n → Counts P (x ∷ xs) (suc n)
  lacks : {x : A} {xs : List A} {n : ℕ} → ¬ P x → Counts P xs n → Counts P (x ∷ xs) n

-- The agent has every label of the group with the same value.
abbrev pub HasLabels : Group → Agent → Type 0
HasLabels g a =
    (name value : Text)
    → In (name, value) (or_no_labels g.labels)
    → label (or_no_labels a.labels) name ≡ some value

keep-Counts :
    {A : Type 0} (P : A → Type 0) (p : A → Bool)
    → ((x : A) → (p x ≡ true) ↔ P x)
    → (xs : List A) → Counts P xs (length (keep p xs))
keep-Counts P p same [] = none_left
keep-Counts P p same (x ∷ xs) = elim (Bool-cases (p x)) [
  | inl h ↦ rw h (has ((same x).0 h) (keep-Counts P p same xs))
  | inr h ↦ rw h (lacks (λ k. true-ne-false (sym ((same x).1 k) ∙ h)) (keep-Counts P p same xs))
]

group_agent_count-Counts :
    (agents : List Agent) (g : Group) → Counts (HasLabels g) agents (group_agent_count agents g)
unfolding group_agent_count
group_agent_count-Counts agents g =
    keep-Counts (HasLabels g)
      (λ (a : Agent). matches (or_no_labels g.labels) (or_no_labels a.labels))
      (λ a. matches_iff (or_no_labels g.labels) (or_no_labels a.labels)) agents

-- The count that the sidebar finds under an id is that of a group with this id.
abbrev IsCountAt : List Group → List Agent → Text → Option ℕ → Type 0
IsCountAt gs agents id o =
    (h : Group) × In h gs × (h.id ≡ id) × (o ≡ some (group_agent_count agents h))

count_at-cons :
    (g : Group) (gs : List Group) (agents : List Agent) (id : Text)
    → IsCountAt gs agents id (count_at (group_agent_counts gs agents) id)
    → IsCountAt (g ∷ gs) agents id (count_at (group_agent_counts (g ∷ gs) agents) id)
unfolding count_at group_agent_counts
count_at-cons g gs agents id (h, i, e, c) = (h, there i, e, rw c refl)

count_at-IsCountAt :
    (gs : List Group) (agents : List Agent) (id : Text)
    → (count_at (group_agent_counts gs agents) id ≡ none)
      ⊎ IsCountAt gs agents id (count_at (group_agent_counts gs agents) id)
unfolding count_at group_agent_counts
count_at-IsCountAt [] agents id = inl refl
count_at-IsCountAt (g ∷ gs) agents id = elim (count_at-IsCountAt gs agents id) [
  | inr found ↦ inr (count_at-cons g gs agents id found)
  | inl missing ↦ elim (Bool-cases (text_eq g.id id)) [
    | inl e ↦ inr (g, here, text_eq→eq g.id id e, rw (missing, e) refl)
    | inr e ↦ inl (rw (missing, e) refl)
  ]
]

count_at-head :
    (g : Group) (gs : List Group) (agents : List Agent)
    → IsCountAt (g ∷ gs) agents g.id (count_at (group_agent_counts (g ∷ gs) agents) g.id)
unfolding count_at group_agent_counts
count_at-head g gs agents = elim (count_at-IsCountAt gs agents g.id) [
  | inr found ↦ count_at-cons g gs agents g.id found
  | inl missing ↦ (g, here, refl, rw (missing, text_eq_refl g.id) refl)
]

count_at-In :
    (gs : List Group) (agents : List Agent) (g : Group)
    → In g gs
    → IsCountAt gs agents g.id (count_at (group_agent_counts gs agents) g.id)
count_at-In [] agents g i = elim i [ ]
count_at-In (h ∷ gs) agents g i = elim (In-cons i) [
  | inl e ↦ rw e (count_at-head h gs agents)
  | inr j ↦ count_at-cons h gs agents g.id (count_at-In gs agents g j)
]

-- A click, Enter and space hand over a node that opens the drawer of this group.
abbrev pub IsOpener : TopologyPage → Text → SidebarRow → Type 0
IsOpener s id r =
    (node : SidebarNode) × (pressed_node r click ≡ some node)
    × (pressed_node r (key (text "Enter")) ≡ some node)
    × (pressed_node r (key (text " ")) ≡ some node)
    × ((topology_step s (select_node node)).selected_group_id ≡ some id)
    × ((topology_step s (select_node node)).group_drawer_open ≡ true)

-- The row shows the number of agents with all labels of a group of the data, its own or one with the
-- same id, and opens the drawer of its own.
abbrev pub IsCounted : TopologyPage → List Group → List Agent → SidebarRow → Type 0
IsCounted s gs agents r =
    (g : Group) × In g gs
    × (r.title ≡ g.name)
    × ((h : Group) × In h gs
        × (h.id ≡ g.id)
        × (n : ℕ) × Counts (HasLabels h) agents n
        × (r.detail ≡ agents_text n))
    × IsOpener s g.id r

group_row-IsOpener :
    (s : TopologyPage) (counts : List (Text × ℕ)) (g : Group) → IsOpener s g.id (group_row counts g)
unfolding group_row pressed_node topology_step text_eq
group_row-IsOpener s counts g = (group_item g.id g.name, refl, refl, refl, refl, refl)

group_row-IsCounted :
    (s : TopologyPage) (gs : List Group) (agents : List Agent) (g : Group)
    → In g gs
    → IsCounted s gs agents (group_row (group_agent_counts gs agents) g)
unfolding group_row
group_row-IsCounted s gs agents g i =
    let (h, j, same, e) = count_at-In gs agents g i in
    let counts : List (Text × ℕ) = group_agent_counts gs agents in
    let found = ap (λ o. agents_text (count_or_zero o)) e in
    (
      g,
      i,
      refl,
      (h, j, same, group_agent_count agents h, group_agent_count-Counts agents h, found),
      group_row-IsOpener s counts g,
    )

rows_of :
    (expanded : Bool) (nothing : Text) (xs rs : List SidebarRow)
    → (sidebar_section expanded nothing xs).body ≡ some (rows rs)
    → rs ≡ xs
rows_of true nothing [] rs h = cc
rows_of true nothing (x ∷ xs) rs h = cc
rows_of false nothing xs rs h = cc

-- Each row that the section of the groups shows has the number of agents with all labels of a group of
-- the data, its own or one with the same id, each with the same value, and a click, Enter or space on
-- it opens the drawer of its own group. There are as many rows as the badge says, one for each group.
pub groups_section-IsCounted :
    (s : TopologyPage) (expanded : Bool) (groups : Option (List Group))
    (agents : Option (List Agent)) (rs : List SidebarRow)
    → (groups_section expanded groups agents).body ≡ some (rows rs)
    → All (IsCounted s (or_none groups) (or_none agents)) rs
      × ((groups_section expanded groups agents).badge ≡ length rs)
      × (length rs ≡ length (or_none groups))
unfolding groups_section
groups_section-IsCounted s expanded groups agents rs h =
    let gs : List Group = or_none groups in
    let row : Group → SidebarRow = group_row (group_agent_counts gs (or_none agents)) in
    let e : rs ≡ map row gs = rows_of expanded (text "No groups found") (map row gs) rs h in
    let is_counted : SidebarRow → Type 0 = IsCounted s gs (or_none agents) in
    (
      subst (All is_counted) (sym e)
          (All-map is_counted row gs (group_row-IsCounted s gs (or_none agents))),
      ap length (sym e),
      ap length e ∙ length-map row gs,
    )
