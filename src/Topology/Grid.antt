-- ===== src/Topology/Grid.antt =====
-- useTopologyLayout.ts: nodes do not overlap, none is lost, and edges join nodes of the level.
use otel_hive.Base.{
  ℕ, zero, suc, ◌+◌, ◌*◌, ◌/◌, ◌%◌, ◌≤◌, ◌≡◌, ◌≢◌, refl, sym, ap, ◌∙◌, ◌⊎◌, inl, inr, Bool, Option,
  none, some, List, [], ◌∷◌, map, keep, get_elem?, Option-cases, arith,
}
use otel_hive.Topology.{
  Level, instance_level, group_level, TopologyNode, TopologyGroup, TopologyData, FlowNode, is_agent,
  is_group, each, group_node, agent_node, nodes_at, layout_nodes,
}

-- The boxes of two nodes, 200 wide and 150 high, are apart.
abbrev pub Apart : FlowNode → FlowNode → Type 0
Apart m n = (m.x + 200 ≤ n.x) ⊎ (n.x + 200 ≤ m.x) ⊎ (m.y + 150 ≤ n.y) ⊎ (n.y + 150 ≤ m.y)

some_injective {ℓ} : {A : Type ℓ} {a b : A} → some a ≡ some b → a ≡ b
some_injective h = cc

each-get_elem? {ℓ κ} :
    {A : Type ℓ} {B : Type κ} (f : A → ℕ → B) (xs : List A) (start i : ℕ) {b : B}
    → get_elem? (each f xs start) i ≡ some b
    → (a : A) × (b ≡ f a (start + i))
each-get_elem? f [] start i h = cc
each-get_elem? f (x ∷ xs) start zero h =
    (x, (let z : start + 0 ≡ start = omega arith in rw z (sym (some_injective h))))
each-get_elem? f (x ∷ xs) start (suc i) h =
    let (a, e) = each-get_elem? f xs (start + 1) i h in (a, e ∙ ap (f a) (omega arith))

none-ne-some {ℓ} : {A : Type ℓ} {a : A} → ¬ (none ≡ some a)
none-ne-some h = cc

agents_apart :
    (i j : ℕ)
    → i ≢ j
    → ((i % 4) * 250 + 50 + 200 ≤ (j % 4) * 250 + 50)
      ⊎ ((j % 4) * 250 + 50 + 200 ≤ (i % 4) * 250 + 50)
      ⊎ ((i / 4) * 200 + 150 + 150 ≤ (j / 4) * 200 + 150)
      ⊎ ((j / 4) * 200 + 150 + 150 ≤ (i / 4) * 200 + 150)
agents_apart i j ne = omega (arith, ne)

groups_apart :
    (i j : ℕ) → i ≢ j → (i * 300 + 50 + 200 ≤ j * 300 + 50) ⊎ (j * 300 + 50 + 200 ≤ i * 300 + 50)
groups_apart i j ne = omega (arith, ne)

nodes_at-Apart :
    (level : Level) (groups : Option (List TopologyGroup)) (ns : List TopologyNode) (i j : ℕ)
    {m n : FlowNode}
    → get_elem? (nodes_at level groups ns) i ≡ some m
    → get_elem? (nodes_at level groups ns) j ≡ some n
    → i ≢ j
    → Apart m n
nodes_at-Apart group_level groups ns i j f g ne =
    let (a, p) = each-get_elem? (group_node groups) (keep is_group ns) 0 i f in
    let (b, q) = each-get_elem? (group_node groups) (keep is_group ns) 0 j g in
    rw (p, q)
      (elim (groups_apart (0 + i) (0 + j) (λ e. ne (omega (arith, e)))) [
        | inl h ↦ inl h
        | inr h ↦ inr (inl h)
      ])
nodes_at-Apart instance_level groups ns i j f g ne =
    let (a, p) = each-get_elem? agent_node (keep is_agent ns) 0 i f in
    let (b, q) = each-get_elem? agent_node (keep is_agent ns) 0 j g in
    rw (p, q) (agents_apart (0 + i) (0 + j) (λ e. ne (omega (arith, e))))

-- No two nodes of the layout overlap, taken as 200 wide and 150 high.
pub layout_nodes-Apart :
    (d : Option TopologyData) (level : Level) (i j : ℕ) (m n : FlowNode)
    → get_elem? (layout_nodes d level) i ≡ some m
    → get_elem? (layout_nodes d level) j ≡ some n
    → i ≢ j
    → Apart m n
unfolding layout_nodes
layout_nodes-Apart none level i j m n f g ne = cc
layout_nodes-Apart (some d) level i j m n f g ne = elim (Option-cases d.nodes) [
  | inl e ↦ absurd (none-ne-some (rw e at f))
  | inr (ns, e) ↦ nodes_at-Apart level d.groups ns i j (rw e at f) (rw e at g) ne
]

each-map {ℓ κ μ} :
    {A : Type ℓ} {B : Type κ} {C : Type μ} (f : A → ℕ → B) (g : B → C) (h : A → C)
    → ((a : A) (i : ℕ) → g (f a i) ≡ h a)
    → (xs : List A) (i : ℕ) → map g (each f xs i) ≡ map h xs
each-map f g h e [] i = refl
each-map f g h e (x ∷ xs) i = rw (e x i) (ap (◌∷◌ (h x)) (each-map f g h e xs (i + 1)))

-- The nodes of a level: agents or groups.
abbrev pub is_at : Level → TopologyNode → Bool
is_at group_level n = is_group n
is_at instance_level n = is_agent n

nodes_at-ids :
    (level : Level) (groups : Option (List TopologyGroup)) (ns : List TopologyNode)
    → map (λ (n : FlowNode). n.id) (nodes_at level groups ns)
      ≡ map (λ (n : TopologyNode). n.id) (keep (is_at level) ns)
nodes_at-ids group_level groups ns =
    each-map (group_node groups) _ _ (λ a i. refl) (keep is_group ns) 0
nodes_at-ids instance_level groups ns = each-map agent_node _ _ (λ a i. refl) (keep is_agent ns) 0

-- The layout shows each agent, or each group, exactly once and in the order of the data.
pub layout_nodes-ids :
    (d : TopologyData) (level : Level) (ns : List TopologyNode)
    → d.nodes ≡ some ns
    → map (λ (n : FlowNode). n.id) (layout_nodes (some d) level)
      ≡ map (λ (n : TopologyNode). n.id) (keep (is_at level) ns)
unfolding layout_nodes
layout_nodes-ids d level ns e = rw e (nodes_at-ids level d.groups ns)
