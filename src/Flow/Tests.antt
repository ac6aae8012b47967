-- ===== src/Flow/Tests.antt =====
-- The graph of a small configuration, and instances of the theorems on graphs.
use otel_hive.Base.{ℕ, ◌≡◌, refl, true, Option, none, some, List, [], ◌∷◌, length, here, there, All}
use otel_hive.Text.{Text, text}
use otel_hive.Validation.Types.{ok, throws, Pipeline, Service}
use otel_hive.Flow.{Loaded, nullish, loaded, Graph, Node, Edge, node_id, pipeline_edges}
use otel_hive.Flow.Generate.{generate_from, generate_pipeline_nodes, all_edges}
use otel_hive.Flow.Connected.{Joins, generate_pipeline_nodes-Joins}
use otel_hive.Flow.Boxes.{IsLaidOut}
use otel_hive.Flow.Layout.{generate_pipeline_nodes-IsLaidOut}
use otel_hive.Flow.View.{
  PipelineProps, effect, change_nodes, loading_shown, no_components, empty_graph, pipeline_view,
  view_run,
}
use otel_hive.Flow.Reaches.{Reaches, all_edges-Reaches}

abbrev same_case : Text → Text
same_case t = t

abbrev traces : Pipeline
traces = record {
  receivers = some (text "otlp" ∷ text "zipkin" ∷ []);
  processors = some (text "batch" ∷ text "filter" ∷ []);
  exporters = some (text "debug" ∷ []);
}

abbrev pipelines : List (Text × Option Pipeline)
pipelines = (text "traces", some traces) ∷ (text "logs", none) ∷ []

abbrev service : Service
service = record { pipelines = some pipelines; extensions = none }

abbrev load : Text → Loaded
load t = loaded (some service)

abbrev graph : Graph
graph = generate_from same_case same_case [] (some service)

-- Two sections and five components, and four edges.
graph_size : (length graph.nodes ≡ 7) × (length graph.edges ≡ 4)
unfolding generate_from pipeline_edges
graph_size = (refl, refl)

-- A text of comments only loads as undefined, and the generation throws.
comments_only :
    generate_pipeline_nodes same_case same_case [] (λ t. nullish) (text "# empty") ≡ throws
unfolding generate_pipeline_nodes
comments_only = refl

generate_pipeline_nodes-Joins_example : All (Joins graph.nodes) graph.edges
unfolding generate_pipeline_nodes
generate_pipeline_nodes-Joins_example =
    generate_pipeline_nodes-Joins same_case same_case [] load (text "service:") graph refl

generate_pipeline_nodes-IsLaidOut_example : IsLaidOut graph
unfolding generate_pipeline_nodes
generate_pipeline_nodes-IsLaidOut_example =
    generate_pipeline_nodes-IsLaidOut same_case same_case [] load (text "service:") graph refl

all_edges-Reaches_example :
    Reaches
      (all_edges same_case same_case [] pipelines)
      (node_id (text "receiver") (text "traces") (text "zipkin"))
      (node_id (text "exporter") (text "traces") (text "debug"))
all_edges-Reaches_example =
    all_edges-Reaches same_case same_case [] pipelines {name = text "traces"} {p = some traces}
      (text "zipkin") (text "debug") here (refl, (refl, tt)) (there here) here

-- A preview with nothing to show.
abbrev no_preview : PipelineProps
no_preview = record {
  agent_id = none;
  effective_config = some [];
  preview_mode = true;
  metrics_data = none;
  configs = none;
  config_loading = true;
  config_failed = true;
}

nothing_to_show : pipeline_view no_preview empty_graph ≡ no_components
unfolding pipeline_view
nothing_to_show = refl

-- Deleting the nodes with the keyboard leaves the view of a configuration without components.
abbrev delete_all : ℕ → List Node → List Node
delete_all change nodes = []

abbrev no_change : ℕ → List Edge → List Edge
no_change change edges = edges

abbrev preview : PipelineProps
preview = record no_preview { effective_config = some (text "service:") }

all_deleted :
    elim (view_run same_case same_case load delete_all no_change empty_graph
      (effect preview ∷ change_nodes 0 ∷ [])) [
        | throws ↦ loading_shown
        | ok g ↦ pipeline_view preview g
      ]
    ≡ no_components
unfolding view_run pipeline_view generate_pipeline_nodes
all_deleted = refl
