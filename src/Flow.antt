-- ===== src/Flow.antt =====
-- ui/src/components/collector-pipeline/PipelineGenerator.tsx: the graph of a collector's pipelines.
-- `load` stands for `yaml.load`, `lower` and `upper` for the case conversions of strings. Style and
-- type of the edges, which are constant, are left out, and so are the two flags of a section.
pub mod Generate
pub mod Connected
pub mod Geometry
pub mod Boxes
pub mod Layout
pub mod Reaches
pub mod View
mod Tests
use otel_hive.Base.{
  ℕ, zero, suc, ◌+◌, ◌-◌, ◌*◌, ◌/◌, max, Bool, true, false, ◌&&◌, ◌||◌, Option, none, some, List,
  [], ◌∷◌, ◌++◌, map, keep, length, if◌then◌else◌,
}
use otel_hive.Text.{Text, text, text_eq}
use otel_hive.Validation.Types.{Throws, ok, throws, Pipeline, Service}
use otel_hive.Validation.Pipeline.{or_empty}

pub record ComponentMetrics : Type 0 where
  pub component_type : Text
  pub component_name : Text
  pub pipeline_type : Text
  pub errors : ℕ
  pub received : Option ℕ
  pub accepted : Option ℕ
  pub sent : Option ℕ

-- What `yaml.load` makes of the text: an error with its message, null or undefined, or a value
-- whose `service` is read.
pub data Loaded : Type 0 where
  failed : Text → Loaded
  nullish : Loaded
  loaded : Option Service → Loaded

pub data Counts : Type 0 where
  received_count : ℕ → Counts
  processed_count : ℕ → Counts
  exported_count : ℕ → Counts

pub data NodeData : Type 0 where
  message : Text → NodeData
  section : (type label : Text) (width height : ℕ) (metrics : Option (ℕ × ℕ)) → NodeData
  component : (type label pipeline_type : Text) (metrics : Option Counts) → NodeData

pub record Node : Type 0 where
  pub id : Text
  pub x : ℕ
  pub y : ℕ
  pub data_ : NodeData

pub record Edge : Type 0 where
  pub id : Text
  pub source : Text
  pub target : Text

pub record Graph : Type 0 where
  pub nodes : List Node
  pub edges : List Edge

-- `a || b || 0` on optional numbers.
abbrev pub or_zero : Option ℕ → ℕ
or_zero none = 0
or_zero (some n) = n

abbrev pub either_or_zero : Option ℕ → Option ℕ → ℕ
either_or_zero (some (suc n)) b = suc n
either_or_zero (some zero) b = or_zero b
either_or_zero none b = or_zero b

pub is_metrics_of : Text → Text → Text → ComponentMetrics → Bool
is_metrics_of type name pipeline m =
    text_eq m.component_type type
    && text_eq m.component_name name
    && text_eq m.pipeline_type pipeline

pub find_component_metrics : List ComponentMetrics → Text → Text → Text → Option ComponentMetrics
unfolding is_metrics_of
find_component_metrics [] type name pipeline = none
find_component_metrics (m ∷ ms) type name pipeline =
    let rest = find_component_metrics ms type name pipeline in
    if is_metrics_of type name pipeline m then some m else rest

-- `receiver-${type}-${name}` and its like.
abbrev pub node_id : Text → Text → Text → Text
node_id kind pipeline name = kind ++ text "-" ++ pipeline ++ text "-" ++ name

abbrev pub section_width : ℕ → ℕ
section_width processors = max 850 (850 + (processors - 1) * 220)

-- The height of a column of nodes, none for no nodes.
abbrev pub column_height : ℕ → ℕ
column_height zero = 0
column_height (suc n) = 100 + n * 120

abbrev pub section_height : ℕ → ℕ → ℕ
section_height receivers exporters =
    max 320 (max (max (column_height receivers) (column_height exporters)) 100 + 160)

-- The y of the first of a column of nodes. With none it is not used.
abbrev pub start_y : ℕ → ℕ → ℕ
start_y center count = center - (count - 1) * 120 / 2 - 30

abbrev pub exporter_x : ℕ → ℕ
exporter_x zero = 600
exporter_x (suc n) = 350 + n * 220 + 250

-- `forEach` with the index.
abbrev pub place {ℓ} : {A : Type ℓ} → (A → ℕ → Node) → List A → ℕ → List Node
place f [] i = []
place f (a ∷ rest) i = f a i ∷ place f rest (i + 1)

abbrev pub edge : Text → Text → Text → Text → Text → Edge
edge pipeline from_kind from to_kind to = record {
  id = text "edge-" ++ pipeline ++ text "-" ++ from ++ text "-to-" ++ to;
  source = node_id from_kind pipeline from;
  target = node_id to_kind pipeline to;
}

abbrev is_named : Text → Bool
is_named [] = false
is_named (c ∷ s) = true

-- The processors in sequence; an empty name gets no edge.
abbrev pub chain_edges : Text → Text → List Text → List Edge
chain_edges pipeline current [] = []
chain_edges pipeline current (next ∷ rest) =
    let more = chain_edges pipeline next rest in
    if is_named current && is_named next
    then edge pipeline (text "processor") current (text "processor") next ∷ more
    else more

abbrev pub last_of : Text → List Text → Text
last_of p [] = p
last_of p (q ∷ rest) = last_of q rest

abbrev pub all_pairs : Text → List Text → List Text → List Edge
all_pairs pipeline [] exporters = []
all_pairs pipeline (r ∷ receivers) exporters =
    map (λ e. edge pipeline (text "receiver") r (text "exporter") e) exporters
    ++ all_pairs pipeline receivers exporters

-- Fan-in, chain and fan-out, or each receiver to each exporter.
unfoldable pub pipeline_edges : Text → List Text → List Text → List Text → List Edge
pipeline_edges pipeline receivers [] exporters = all_pairs pipeline receivers exporters
pipeline_edges pipeline receivers (p ∷ processors) exporters =
    map (λ r. edge pipeline (text "receiver") r (text "processor") p) receivers
    ++ chain_edges pipeline p processors
    ++ map (λ e. edge pipeline (text "processor") (last_of p processors) (text "exporter") e)
        exporters

abbrev pub receivers_of : Option Pipeline → List Text
receivers_of none = []
receivers_of (some p) = or_empty p.receivers

abbrev pub processors_of : Option Pipeline → List Text
processors_of none = []
processors_of (some p) = or_empty p.processors

abbrev pub exporters_of : Option Pipeline → List Text
exporters_of none = []
exporters_of (some p) = or_empty p.exporters

abbrev pub height_of : Option Pipeline → ℕ
height_of p = section_height (length (receivers_of p)) (length (exporters_of p))

-- A graph of one message.
abbrev pub notice : Text → Text → Graph
notice id label = record {
  nodes = record { id = id; x = 300; y = 200; data_ = message label } ∷ [];
  edges = [];
}
