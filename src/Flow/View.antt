-- ===== src/Flow/View.antt =====
-- ui/src/components/collector-pipeline/CollectorPipelineView.tsx: what stands where the graph of a
-- configuration is to be seen. The configurations and the metrics are what SWR has; the canvas changes
-- nodes and edges by `apply_nodes` and `apply_edges`.
use otel_hive.Base.{
  Bool, true, false, not, ◌&&◌, ◌||◌, Option, none, some, List, [], ◌∷◌, ◌++◌, if◌then◌else◌,
}
use otel_hive.Text.{Text, text, truthy}
use otel_hive.Validation.Types.{Throws, ok, ◌>>=◌}
use otel_hive.Flow.{ComponentMetrics, Loaded, Node, Edge, Graph}
use otel_hive.Flow.Generate.{generate_pipeline_nodes}

-- The properties, and what SWR has for the two keys: `configs` are the contents of the configurations.
pub record PipelineProps : Type 0 where
  pub agent_id : Option Text
  pub effective_config : Option Text
  pub preview_mode : Bool
  pub metrics_data : Option (List ComponentMetrics)
  pub configs : Option (List Text)
  pub config_loading : Bool
  pub config_failed : Bool

abbrev pub is_given : Option Text → Bool
is_given o = elim (truthy o) [ none ↦ false | some t ↦ true ]

-- The keys of the cache, with `none` where nothing is fetched.
abbrev pub metrics_key : PipelineProps → Option Text
metrics_key p = if p.preview_mode then none else elim (truthy p.agent_id) [
  | none ↦ none
  | some id ↦ some (text "agent-component-metrics-pipeline-" ++ id)
]

abbrev pub config_key : PipelineProps → Option Text
config_key p =
    if p.preview_mode || is_given p.effective_config then none else elim (truthy p.agent_id) [
      | none ↦ none
      | some id ↦ some (text "agent-config-pipeline-" ++ id)
    ]

abbrev pub first_config : Option (List Text) → Option Text
first_config none = none
first_config (some []) = none
first_config (some (content ∷ contents)) = some content

-- `effectiveConfig`, where an empty one counts as none.
unfoldable pub effective_config_of : PipelineProps → Option Text
effective_config_of p = elim (truthy p.effective_config) [
  | some config ↦ some config
  | none ↦ truthy (first_config p.configs)
]

-- `metricsData || []`
abbrev pub or_no_metrics : Option (List ComponentMetrics) → List ComponentMetrics
or_no_metrics none = []
or_no_metrics (some metrics) = metrics

abbrev pub shown_metrics : PipelineProps → List ComponentMetrics
shown_metrics p = if p.preview_mode then [] else or_no_metrics p.metrics_data

abbrev pub empty_graph : Graph
empty_graph = record { nodes = []; edges = [] }

pub data PipelineShown : Type 0 where
  loading_shown : PipelineShown
  error_shown : Text → PipelineShown
  no_components : PipelineShown
  graph_shown : Graph → PipelineShown

abbrev pub graph_or_empty : Graph → List Node → PipelineShown
graph_or_empty g [] = no_components
graph_or_empty g (n ∷ nodes) = graph_shown g

abbrev pub is_loading : PipelineProps → Bool
is_loading p = not p.preview_mode && not (is_given p.effective_config) && p.config_loading

abbrev pub is_failed : PipelineProps → Bool
is_failed p = not p.preview_mode && p.config_failed

-- What happens to the graph that the view holds: its effect runs, or the library of the canvas changes
-- nodes or edges, as by a deletion with the keyboard; `C` and `D` are its changes.
pub data ViewEvent (C D : Type 0) : Type 0 where
  effect : PipelineProps → ViewEvent C D
  change_nodes : C → ViewEvent C D
  change_edges : D → ViewEvent C D

-- What is shown of a graph that the view holds.
unfoldable pub pipeline_view : PipelineProps → Graph → PipelineShown
pipeline_view p g =
    if is_loading p
    then loading_shown
    else if is_failed p
    then error_shown (text "Failed to fetch agent configuration")
    else graph_or_empty g g.nodes

module _ (lower upper : Text → Text) (load : Text → Loaded) where
  -- The graph that the effect sets; it may throw and takes the view away then.
  unfoldable pub generated : List ComponentMetrics → Option Text → Throws Graph
  unfolding generate_pipeline_nodes
  generated metrics none = ok empty_graph
  generated metrics (some config) = generate_pipeline_nodes lower upper metrics load config

  module _ {C D : Type 0} (apply_nodes : C → List Node → List Node)
      (apply_edges : D → List Edge → List Edge) where
    unfoldable pub view_step : Graph → ViewEvent C D → Throws Graph
    unfolding generated effective_config_of
    view_step g (effect p) = generated (shown_metrics p) (effective_config_of p)
    view_step g (change_nodes c) = ok (record g { nodes = apply_nodes c g.nodes })
    view_step g (change_edges d) = ok (record g { edges = apply_edges d g.edges })

    -- The view begins with an empty graph.
    unfoldable pub view_run : Graph → List (ViewEvent C D) → Throws Graph
    unfolding view_step
    view_run g [] = ok g
    view_run g (e ∷ es) = do h ← view_step g e; view_run h es
