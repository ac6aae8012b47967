-- ===== src/Flow/Connected.antt =====
-- PipelineGenerator.tsx: the ends of every edge are nodes, and data flows from every receiver of a
-- pipeline to every exporter.
use otel_hive.Base.{
  ℕ, ◌+◌, ◌≡◌, refl, subst, inl, inr, Bool, true, false, ◌&&◌, Option, none, some, List, [], ◌∷◌,
  ◌++◌, map, In, here, there, In-append_left, In-append_right, All, All-append, All-In, All-of_In,
  Option-cases, if◌then◌else◌,
}
use otel_hive.Text.{Text, text}
use otel_hive.Validation.Types.{ok, ok_injective, Pipeline, Service}
use otel_hive.Flow.{
  ComponentMetrics, Loaded, failed, nullish, loaded, Node, Edge, Graph, node_id, place, edge,
  is_named, chain_edges, last_of, all_pairs, pipeline_edges, receivers_of, processors_of,
  exporters_of, height_of,
}
use otel_hive.Flow.Generate.{
  receiver_node, processor_node, exporter_node, section_node, component_nodes, pipeline_nodes,
  all_edges, generate_from, graph_of, generate_pipeline_nodes,
}

pub record HasNode (nodes : List Node) (id : Text) : Type 0 where
  pub node : Node
  pub listed : In node nodes
  pub named : node.id ≡ id

-- Both ends of the edge are nodes.
abbrev pub Joins : List Node → Edge → Type 0
Joins nodes e = HasNode nodes e.source × HasNode nodes e.target

HasNode-left : {xs : List Node} {id : Text} (ys : List Node) → HasNode xs id → HasNode (xs ++ ys) id
HasNode-left ys h = record { node = h.node; listed = In-append_left ys h.listed; named = h.named }

HasNode-right :
    {ys : List Node} {id : Text} (xs : List Node) → HasNode ys id → HasNode (xs ++ ys) id
HasNode-right xs h = record { node = h.node; listed = In-append_right xs h.listed; named = h.named }

HasNode-cons : {ys : List Node} {id : Text} (x : Node) → HasNode ys id → HasNode (x ∷ ys) id
HasNode-cons x h = record { node = h.node; listed = there h.listed; named = h.named }

-- Each name of a list has its node.
abbrev Placed : List Node → Text → Text → List Text → Type 0
Placed nodes kind type names = All (λ name. HasNode nodes (node_id kind type name)) names

place-Placed :
    (f : Text → ℕ → Node) (kind type : Text)
    → ((name : Text) (i : ℕ) → (f name i).id ≡ node_id kind type name)
    → (names : List Text) (i : ℕ) → Placed (place f names i) kind type names
place-Placed f kind type named [] i = tt
place-Placed f kind type named (name ∷ names) i = (
  record { node = f name i; listed = here; named = named name i },
  All-of_In _ names (λ a at.
      HasNode-cons (f name i) (All-In _ (place-Placed f kind type named names (i + 1)) at)),
)

Placed-mono :
    {xs ys : List Node} (kind type : Text) (names : List Text)
    → ((id : Text) → HasNode xs id → HasNode ys id)
    → Placed xs kind type names
    → Placed ys kind type names
Placed-mono kind type [] f h = tt
Placed-mono kind type (name ∷ names) f h = (f _ h.0, Placed-mono kind type names f h.1)

All-if :
    (P : Edge → Type 0) (b : Bool) (xs ys : List Edge)
    → All P xs
    → All P ys
    → All P (if b then xs else ys)
All-if P true xs ys h k = h
All-if P false xs ys h k = k

module _ (nodes : List Node) (type : Text) where
  pairs-Joins :
      (receivers exporters : List Text)
      → Placed nodes (text "receiver") type receivers
      → Placed nodes (text "exporter") type exporters
      → All (Joins nodes) (all_pairs type receivers exporters)
  pairs-Joins [] es hr he = tt
  pairs-Joins (r ∷ rs) es hr he =
      All-append (Joins nodes) _ _ (row es he) (pairs-Joins rs es hr.1 he)
    where
      row :
          (xs : List Text)
          → Placed nodes (text "exporter") type xs
          → All (Joins nodes) (map (λ e. edge type (text "receiver") r (text "exporter") e) xs)
      row [] h = tt
      row (x ∷ xs) h = ((hr.0, h.0), row xs h.1)

  fan_in-Joins :
      (p : Text) (receivers : List Text)
      → HasNode nodes (node_id (text "processor") type p)
      → Placed nodes (text "receiver") type receivers
      → All (Joins nodes) (map (λ r. edge type (text "receiver") r (text "processor") p) receivers)
  fan_in-Joins p [] hp h = tt
  fan_in-Joins p (r ∷ rs) hp h = ((h.0, hp), fan_in-Joins p rs hp h.1)

  fan_out-Joins :
      (p : Text) (exporters : List Text)
      → HasNode nodes (node_id (text "processor") type p)
      → Placed nodes (text "exporter") type exporters
      → All (Joins nodes) (map (λ e. edge type (text "processor") p (text "exporter") e) exporters)
  fan_out-Joins p [] hp h = tt
  fan_out-Joins p (e ∷ es) hp h = ((hp, h.0), fan_out-Joins p es hp h.1)

  chain-Joins :
      (p : Text) (processors : List Text)
      → HasNode nodes (node_id (text "processor") type p)
      → Placed nodes (text "processor") type processors
      → All (Joins nodes) (chain_edges type p processors)
  chain-Joins p [] hp h = tt
  chain-Joins p (q ∷ qs) hp h =
      let more = chain-Joins q qs h.0 h.1 in
      All-if (Joins nodes) (is_named p && is_named q) _ _ ((hp, h.0), more) more

  last-HasNode :
      (p : Text) (processors : List Text)
      → HasNode nodes (node_id (text "processor") type p)
      → Placed nodes (text "processor") type processors
      → HasNode nodes (node_id (text "processor") type (last_of p processors))
  last-HasNode p [] hp h = hp
  last-HasNode p (q ∷ qs) hp h = last-HasNode q qs h.0 h.1

  pipeline_edges-Joins :
      (receivers processors exporters : List Text)
      → Placed nodes (text "receiver") type receivers
      → Placed nodes (text "processor") type processors
      → Placed nodes (text "exporter") type exporters
      → All (Joins nodes) (pipeline_edges type receivers processors exporters)
  unfolding pipeline_edges
  pipeline_edges-Joins rs [] es hr hp he = pairs-Joins rs es hr he
  pipeline_edges-Joins rs (p ∷ ps) es hr hp he =
      All-append (Joins nodes) _ _
        (All-append (Joins nodes) _ _ (fan_in-Joins p rs hp.0 hr) (chain-Joins p ps hp.0 hp.1))
        (fan_out-Joins (last_of p ps) es (last-HasNode p ps hp.0 hp.1) he)

Joins-mono :
    {xs ys : List Node} (es : List Edge)
    → ((id : Text) → HasNode xs id → HasNode ys id)
    → All (Joins xs) es
    → All (Joins ys) es
Joins-mono [] f h = tt
Joins-mono (e ∷ es) f h = ((f _ h.0.0, f _ h.0.1), Joins-mono es f h.1)

module _ (lower upper : Text → Text) (metrics : List ComponentMetrics) where
  pipeline-Joins :
      (y : ℕ) (type : Text) (p : Option Pipeline)
      → All
          (Joins (component_nodes lower upper metrics y type p))
          (pipeline_edges type (receivers_of p) (processors_of p) (exporters_of p))
  unfolding component_nodes
  pipeline-Joins y type p =
      let rs = place (receiver_node lower upper metrics y type p) (receivers_of p) 0 in
      let ps = place (processor_node lower upper metrics y type p) (processors_of p) 0 in
      let es = place (exporter_node lower upper metrics y type p) (exporters_of p) 0 in
      pipeline_edges-Joins _ type (receivers_of p) (processors_of p) (exporters_of p)
        (Placed-mono (text "receiver") type (receivers_of p)
          (λ id h. HasNode-left es (HasNode-left ps h))
          (place-Placed _ (text "receiver") type (λ name i. refl) (receivers_of p) 0))
        (Placed-mono (text "processor") type (processors_of p)
          (λ id h. HasNode-left es (HasNode-right rs h))
          (place-Placed _ (text "processor") type (λ name i. refl) (processors_of p) 0))
        (Placed-mono (text "exporter") type (exporters_of p) (λ id h. HasNode-right (rs ++ ps) h)
          (place-Placed _ (text "exporter") type (λ name i. refl) (exporters_of p) 0))

  all_edges-Joins :
      (y : ℕ) (pipelines : List (Text × Option Pipeline))
      → All
          (Joins (pipeline_nodes lower upper metrics y pipelines))
          (all_edges lower upper metrics pipelines)
  unfolding pipeline_nodes all_edges
  all_edges-Joins y [] = tt
  all_edges-Joins y ((name, p) ∷ rest) =
      All-append (Joins _) _ _
        (Joins-mono _ (λ id h. HasNode-left _ (HasNode-cons _ h)) (pipeline-Joins y (lower name) p))
        (Joins-mono _
          (λ id h.
            HasNode-right
              (section_node lower upper metrics y name p
                ∷ component_nodes lower upper metrics y (lower name) p)
              h)
          (all_edges-Joins (y + (height_of p + 40)) rest))

  generate_from-Joins :
      (s : Option Service)
      → let g = generate_from lower upper metrics s in All (Joins g.nodes) g.edges
  unfolding generate_from
  generate_from-Joins none = tt
  generate_from-Joins (some s) = elim (Option-cases s.pipelines) [
    | inl e ↦ rw e tt
    | inr ([], e) ↦ rw e tt
    | inr (p ∷ pipelines, e) ↦ rw e (all_edges-Joins 0 (p ∷ pipelines))
  ]

  graph_of-Joins :
      (l : Loaded) (g : Graph) → graph_of lower upper metrics l ≡ ok g → All (Joins g.nodes) g.edges
  unfolding graph_of
  graph_of-Joins (failed message) g h = subst (λ g. All (Joins g.nodes) g.edges) (ok_injective h) tt
  graph_of-Joins nullish g h = cc
  graph_of-Joins (loaded service) g h =
      subst (λ g. All (Joins g.nodes) g.edges) (ok_injective h) (generate_from-Joins service)

  -- Whatever the configuration is, both ends of every edge of its graph are nodes of the graph.
  pub generate_pipeline_nodes-Joins :
      (load : Text → Loaded) (effective_config : Text) (g : Graph)
      → generate_pipeline_nodes lower upper metrics load effective_config ≡ ok g
      → All (Joins g.nodes) g.edges
  unfolding generate_pipeline_nodes
  generate_pipeline_nodes-Joins load [] g h =
      subst (λ g. All (Joins g.nodes) g.edges) (ok_injective h) tt
  generate_pipeline_nodes-Joins load (c ∷ s) g h = graph_of-Joins (load (c ∷ s)) g h
