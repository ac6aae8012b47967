-- ===== src/Flow/Layout.antt =====
-- PipelineGenerator.tsx: every component is drawn inside a section, and sections do not overlap.
use otel_hive.Base.{
  ℕ, ◌+◌, ◌≤◌, ◌≡◌, refl, ap, ◌∙◌, sym, subst, inl, inr, Option, none, some, List, [], ◌∷◌, ◌++◌,
  length, here, All, All-append, Option-cases, arith,
}
use otel_hive.Text.{Text}
use otel_hive.Validation.Types.{ok, ok_injective, Pipeline, Service}
use otel_hive.Flow.{
  ComponentMetrics, Loaded, failed, nullish, loaded, Graph, Edge, place, receivers_of,
  processors_of, exporters_of, notice, height_of, section_width,
}
use otel_hive.Flow.Geometry.{
  Inside, place-All, column_fits, row_fits, height_lem, width_lem, exporter_lem,
}
use otel_hive.Flow.Generate.{
  receiver_node, processor_node, exporter_node, component_nodes, pipeline_nodes, generate_from,
  graph_of, generate_pipeline_nodes,
}
use otel_hive.Flow.Boxes.{
  Box, sections, Stacked, IsDrawn, IsLaidOut, sections-place, sections-append, All-mono,
  DrawnAs-box, DrawnAs-cons,
}

module _ (lower upper : Text → Text) (metrics : List ComponentMetrics) where
  component_nodes-Inside :
      (y : ℕ) (type : Text) (p : Option Pipeline)
      → All
          (Inside 50 y (section_width (length (processors_of p))) (height_of p))
          (component_nodes lower upper metrics y type p)
  unfolding component_nodes
  component_nodes-Inside y type p =
      let r = length (receivers_of p) in
      let e = length (exporters_of p) in
      let n = length (processors_of p) in
      let (low, rs, es) = height_lem r e in
      All-append _ _ _
        (All-append _ _ _
          (place-All _ _ (receivers_of p) 0 (λ name j lt.
            let fits = column_fits y (height_of p) r j low rs (omega (arith, lt)) in
            (omega arith, omega arith, fits.0, fits.1)))
          (place-All _ _ (processors_of p) 0 (λ name j lt.
            let fits = row_fits y (height_of p) low in
            (omega arith, width_lem n j (omega (arith, lt)), fits.0, fits.1))))
        (place-All _ _ (exporters_of p) 0 (λ name j lt.
          let fits = column_fits y (height_of p) e j low es (omega (arith, lt)) in
          let wide = exporter_lem n in (wide.0, wide.1, fits.0, fits.1)))

  sections-component_nodes :
      (y : ℕ) (type : Text) (p : Option Pipeline)
      → sections (component_nodes lower upper metrics y type p) ≡ []
  unfolding component_nodes
  sections-component_nodes y type p =
      let rs = place (receiver_node lower upper metrics y type p) (receivers_of p) 0 in
      let ps = place (processor_node lower upper metrics y type p) (processors_of p) 0 in
      let es = place (exporter_node lower upper metrics y type p) (exporters_of p) 0 in
      rw
        (
          sections-append (rs ++ ps) es,
          sections-append rs ps,
          sections-place (receiver_node lower upper metrics y type p) (receivers_of p) 0
              (λ a j. refl),
          sections-place (processor_node lower upper metrics y type p) (processors_of p) 0
              (λ a j. refl),
          sections-place (exporter_node lower upper metrics y type p) (exporters_of p) 0
              (λ a j. refl),
        )
        refl

  abbrev box_of : ℕ → Option Pipeline → Box
  box_of y p = record {
    x = 50;
    y = y;
    width = section_width (length (processors_of p));
    height = height_of p;
  }

  abbrev boxes : ℕ → List (Text × Option Pipeline) → List Box
  boxes y [] = []
  boxes y ((name, p) ∷ rest) = box_of y p ∷ boxes (y + (height_of p + 40)) rest

  sections-pipeline_nodes :
      (y : ℕ) (pipelines : List (Text × Option Pipeline))
      → sections (pipeline_nodes lower upper metrics y pipelines) ≡ boxes y pipelines
  unfolding pipeline_nodes
  sections-pipeline_nodes y [] = refl
  sections-pipeline_nodes y ((name, p) ∷ rest) = ap (◌∷◌ (box_of y p)) (
      sections-append (component_nodes lower upper metrics y (lower name) p) _
      ∙ rw (sections-component_nodes y (lower name) p)
          (sections-pipeline_nodes (y + (height_of p + 40)) rest))

  boxes_below :
      (bound y : ℕ) (pipelines : List (Text × Option Pipeline))
      → bound ≤ y
      → All (λ b. bound ≤ b.y) (boxes y pipelines)
  boxes_below bound y [] h = tt
  boxes_below bound y ((name, p) ∷ rest) h =
      (h, boxes_below bound (y + (height_of p + 40)) rest (omega (arith, h)))

  boxes-Stacked : (y : ℕ) (pipelines : List (Text × Option Pipeline)) → Stacked (boxes y pipelines)
  boxes-Stacked y [] = tt
  boxes-Stacked y ((name, p) ∷ rest) = (
    boxes_below _ (y + (height_of p + 40)) rest (omega arith),
    boxes-Stacked (y + (height_of p + 40)) rest,
  )

  pipeline_nodes-IsDrawn :
      (y : ℕ) (pipelines : List (Text × Option Pipeline))
      → All (IsDrawn (boxes y pipelines)) (pipeline_nodes lower upper metrics y pipelines)
  unfolding pipeline_nodes
  pipeline_nodes-IsDrawn y [] = tt
  pipeline_nodes-IsDrawn y ((name, p) ∷ rest) =
      let below = boxes (y + (height_of p + 40)) rest in
      (
        tt,
        All-append _ (component_nodes lower upper metrics y (lower name) p) _
            (All-mono _ (λ n h. DrawnAs-box (box_of y p ∷ below) (box_of y p) n n.data_ here h)
              (component_nodes-Inside y (lower name) p))
            (All-mono _ (λ n h. DrawnAs-cons below (box_of y p) n n.data_ h)
              (pipeline_nodes-IsDrawn (y + (height_of p + 40)) rest)),
      )

  pipeline_nodes-IsLaidOut :
      (pipelines : List (Text × Option Pipeline)) (es : List Edge)
      → IsLaidOut (record { nodes = pipeline_nodes lower upper metrics 0 pipelines; edges = es })
  pipeline_nodes-IsLaidOut pipelines es =
      let same = sym (sections-pipeline_nodes 0 pipelines) in
      record {
        stacked = subst Stacked same (boxes-Stacked 0 pipelines);
        drawn =
            subst (λ bs. All (IsDrawn bs) (pipeline_nodes lower upper metrics 0 pipelines)) same
              (pipeline_nodes-IsDrawn 0 pipelines);
      }

  notice-IsLaidOut : (id label : Text) → IsLaidOut (notice id label)
  notice-IsLaidOut id label = record { stacked = tt; drawn = (tt, tt) }

  generate_from-IsLaidOut : (s : Option Service) → IsLaidOut (generate_from lower upper metrics s)
  unfolding generate_from
  generate_from-IsLaidOut none = notice-IsLaidOut _ _
  generate_from-IsLaidOut (some s) = elim (Option-cases s.pipelines) [
    | inl e ↦ rw e (notice-IsLaidOut _ _)
    | inr ([], e) ↦ rw e (notice-IsLaidOut _ _)
    | inr (p ∷ pipelines, e) ↦ rw e (pipeline_nodes-IsLaidOut (p ∷ pipelines) _)
  ]

  graph_of-IsLaidOut :
      (l : Loaded) (g : Graph) → graph_of lower upper metrics l ≡ ok g → IsLaidOut g
  unfolding graph_of
  graph_of-IsLaidOut (failed reason) g h = subst IsLaidOut (ok_injective h) (notice-IsLaidOut _ _)
  graph_of-IsLaidOut nullish g h = cc
  graph_of-IsLaidOut (loaded service) g h =
      subst IsLaidOut (ok_injective h) (generate_from-IsLaidOut service)

  -- Whatever the configuration is, the sections of its graph do not overlap, from top to bottom
  -- each ends at least 40 above the next ones, and each component begins inside one of the sections,
  -- from its left edge to before its right one, and is within it from top to bottom, 100 high.
  pub generate_pipeline_nodes-IsLaidOut :
      (load : Text → Loaded) (effective_config : Text) (g : Graph)
      → generate_pipeline_nodes lower upper metrics load effective_config ≡ ok g
      → IsLaidOut g
  unfolding generate_pipeline_nodes
  generate_pipeline_nodes-IsLaidOut load [] g h =
      subst IsLaidOut (ok_injective h) (notice-IsLaidOut _ _)
  generate_pipeline_nodes-IsLaidOut load (c ∷ s) g h = graph_of-IsLaidOut (load (c ∷ s)) g h
