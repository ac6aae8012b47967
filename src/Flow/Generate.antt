-- ===== src/Flow/Generate.antt =====
-- PipelineGenerator.tsx: the nodes of one pipeline, the loop over the pipelines and the notices.
use otel_hive.Base.{
  ℕ, ◌+◌, ◌*◌, ◌/◌, ◌-◌, ◌||◌, Option, none, some, List, [], ◌∷◌, ◌++◌, keep, length, if◌then◌else◌,
}
use otel_hive.Text.{Text, text, text_eq}
use otel_hive.Validation.Types.{Throws, ok, throws, Pipeline, Service}
use otel_hive.Flow.{
  ComponentMetrics, Loaded, failed, nullish, loaded, Counts, received_count, processed_count,
  exported_count, section, component, Node, Edge, Graph, or_zero, either_or_zero,
  find_component_metrics, node_id, section_width, height_of, start_y, exporter_x, place,
  pipeline_edges, receivers_of, processors_of, exporters_of, notice,
}

-- `reduce` with a sum.
abbrev pub total : (ComponentMetrics → ℕ) → List ComponentMetrics → ℕ
total f [] = 0
total f (m ∷ ms) = f m + total f ms

abbrev pub section_metrics : List ComponentMetrics → Option (ℕ × ℕ)
section_metrics [] = none
section_metrics (m ∷ ms) =
    some (total (λ m. or_zero m.received) (m ∷ ms), total (λ m. m.errors) (m ∷ ms))

abbrev pub receiver_counts : Option ComponentMetrics → Option Counts
receiver_counts none = none
receiver_counts (some m) = some (received_count (either_or_zero m.received m.accepted))

abbrev pub processor_counts : Option ComponentMetrics → Option Counts
processor_counts none = none
processor_counts (some m) = some (processed_count (either_or_zero m.accepted m.received))

abbrev pub exporter_counts : Option ComponentMetrics → Option Counts
exporter_counts none = none
exporter_counts (some m) = some (exported_count (or_zero m.sent))

module _ (lower upper : Text → Text) (metrics : List ComponentMetrics) where
  abbrev pub display_name : Text → Text
  display_name name =
      if text_eq name (text "traces") || text_eq name (text "metrics") || text_eq name (text "logs")
      then upper name
      else upper (lower name) ++ text " (" ++ name ++ text ")"

  abbrev pub section_node : ℕ → Text → Option Pipeline → Node
  section_node y_offset name p = record {
    id = text "section-" ++ name;
    x = 50;
    y = y_offset;
    data_ =
        section (lower name) (display_name name) (section_width (length (processors_of p)))
          (height_of p)
          (section_metrics (keep (λ m. text_eq m.pipeline_type (lower name)) metrics));
  }

  -- `centerY`
  abbrev pub center_y : ℕ → Option Pipeline → ℕ
  center_y y_offset p = y_offset + height_of p / 2

  abbrev pub receiver_node : ℕ → Text → Option Pipeline → Text → ℕ → Node
  receiver_node y_offset type p name i = record {
    id = node_id (text "receiver") type name;
    x = 100;
    y = start_y (center_y y_offset p) (length (receivers_of p)) + i * 120;
    data_ =
        component (text "receiver") name type
          (receiver_counts (find_component_metrics metrics (text "receiver") name type));
  }

  abbrev pub processor_node : ℕ → Text → Option Pipeline → Text → ℕ → Node
  processor_node y_offset type p name i = record {
    id = node_id (text "processor") type name;
    x = 350 + i * 220;
    y = center_y y_offset p - 30;
    data_ =
        component (text "processor") name type
          (processor_counts (find_component_metrics metrics (text "processor") name type));
  }

  abbrev pub exporter_node : ℕ → Text → Option Pipeline → Text → ℕ → Node
  exporter_node y_offset type p name i = record {
    id = node_id (text "exporter") type name;
    x = exporter_x (length (processors_of p));
    y = start_y (center_y y_offset p) (length (exporters_of p)) + i * 120;
    data_ =
        component (text "exporter") name type
          (exporter_counts (find_component_metrics metrics (text "exporter") name type));
  }

  -- The nodes in a section, without the section itself.
  unfoldable pub component_nodes : ℕ → Text → Option Pipeline → List Node
  component_nodes y_offset type p =
      place (receiver_node y_offset type p) (receivers_of p) 0
      ++ place (processor_node y_offset type p) (processors_of p) 0
      ++ place (exporter_node y_offset type p) (exporters_of p) 0

  -- The loop over the pipelines.
  unfoldable pub pipeline_nodes : ℕ → List (Text × Option Pipeline) → List Node
  unfolding component_nodes
  pipeline_nodes y_offset [] = []
  pipeline_nodes y_offset ((name, p) ∷ rest) =
      section_node y_offset name p ∷ component_nodes y_offset (lower name) p
      ++ pipeline_nodes (y_offset + (height_of p + 40)) rest

  unfoldable pub all_edges : List (Text × Option Pipeline) → List Edge
  all_edges [] = []
  all_edges ((name, p) ∷ rest) =
      pipeline_edges (lower name) (receivers_of p) (processors_of p) (exporters_of p)
      ++ all_edges rest

  unfoldable pub generate_from : Option Service → Graph
  unfolding pipeline_nodes all_edges
  generate_from none = notice (text "no-service") (text "No service configuration found")
  generate_from (some s) = elim s.pipelines [
    | none ↦ notice (text "no-service") (text "No service configuration found")
    | some [] ↦ notice (text "no-pipelines") (text "No pipelines configured")
    | some (p ∷ pipelines) ↦ record {
      nodes = pipeline_nodes 0 (p ∷ pipelines);
      edges = all_edges (p ∷ pipelines);
    }
  ]

  -- A property of null or undefined cannot be read.
  unfoldable pub graph_of : Loaded → Throws Graph
  unfolding generate_from
  graph_of (failed message) =
      ok (notice (text "parse-error") (text "YAML Parse Error: " ++ message))
  graph_of nullish = throws
  graph_of (loaded service) = ok (generate_from service)

  -- `generatePipelineNodes`
  unfoldable pub generate_pipeline_nodes : (Text → Loaded) → Text → Throws Graph
  unfolding graph_of
  generate_pipeline_nodes load [] =
      ok (notice (text "no-config") (text "No configuration available"))
  generate_pipeline_nodes load (c ∷ s) = graph_of (load (c ∷ s))
