-- ===== src/Flow/Reaches.antt =====
-- PipelineGenerator.tsx: along the edges of a pipeline data gets from every receiver to every
-- exporter.
use otel_hive.Base.{
  Option, ℕ, zero, suc, ◌+◌, ◌*◌, ◌≡◌, refl, ap, true, List, [], ◌∷◌, ◌++◌, map, length,
  length-append, length-map, In, here, there, In-append_left, In-append_right, In-map, All, arith,
}
use otel_hive.Text.{Text, text}
use otel_hive.Flow.{
  Edge, node_id, edge, is_named, chain_edges, last_of, all_pairs, pipeline_edges, ComponentMetrics,
  receivers_of, processors_of, exporters_of,
}
use otel_hive.Flow.Generate.{all_edges}
use otel_hive.Validation.Types.{Pipeline}

-- A way along the edges.
pub data Reaches (es : List Edge) : Text → Text → Type 0 where
  arrived : {a : Text} → Reaches es a a
  along : {e : Edge} {b : Text} → In e es → Reaches es e.target b → Reaches es e.source b

Reaches-mono :
    {es fs : List Edge} {a b : Text}
    → ((e : Edge) → In e es → In e fs)
    → Reaches es a b
    → Reaches fs a b
Reaches-mono f arrived = arrived
Reaches-mono f (along i r) = along (f _ i) (Reaches-mono f r)

Reaches-trans : {es : List Edge} {a b c : Text} → Reaches es a b → Reaches es b c → Reaches es a c
Reaches-trans arrived s = s
Reaches-trans (along i r) s = along i (Reaches-trans r s)

abbrev pub IsNamed : Text → Type 0
IsNamed name = is_named name ≡ true

chain-Reaches :
    (type p : Text) (processors : List Text)
    → IsNamed p
    → All IsNamed processors
    → Reaches
        (chain_edges type p processors)
        (node_id (text "processor") type p)
        (node_id (text "processor") type (last_of p processors))
chain-Reaches type p [] n h = arrived
chain-Reaches type p (q ∷ qs) n h =
    rw (n, h.0)
      (along {e = edge type (text "processor") p (text "processor") q} here
        (Reaches-mono (λ e i. there i) (chain-Reaches type q qs h.0 h.1)))

all_pairs-In :
    (type x : Text) {r : Text} (receivers exporters : List Text)
    → In r receivers
    → In x exporters
    → In (edge type (text "receiver") r (text "exporter") x) (all_pairs type receivers exporters)
all_pairs-In type x [] es i j = elim i [ ]
all_pairs-In type x (r ∷ rs) es here j =
    In-append_left _ (In-map (λ e. edge type (text "receiver") r (text "exporter") e) j)
all_pairs-In type x (s ∷ rs) es (there i) j =
    In-append_right (map (λ e. edge type (text "receiver") s (text "exporter") e) es)
      (all_pairs-In type x rs es i j)

pipeline_edges-Reaches :
    (type : Text) (receivers processors exporters : List Text) (r x : Text)
    → All IsNamed processors
    → In r receivers
    → In x exporters
    → Reaches
        (pipeline_edges type receivers processors exporters)
        (node_id (text "receiver") type r)
        (node_id (text "exporter") type x)
unfolding pipeline_edges
pipeline_edges-Reaches type rs [] es r x n i j =
    along {e = edge type (text "receiver") r (text "exporter") x} (all_pairs-In type x rs es i j)
      arrived
pipeline_edges-Reaches type rs (p ∷ ps) es r x n i j =
    let fan_in = map (λ r. edge type (text "receiver") r (text "processor") p) rs in
    let fan_out = map (λ e. edge type (text "processor") (last_of p ps) (text "exporter") e) es in
    along {e = edge type (text "receiver") r (text "processor") p}
      (In-append_left fan_out (
        In-append_left (chain_edges type p ps)
          (In-map (λ r. edge type (text "receiver") r (text "processor") p) i)))
      (Reaches-trans
        (Reaches-mono (λ e k. In-append_left fan_out (In-append_right fan_in k))
          (chain-Reaches type p ps n.0 n.1))
        (along {e = edge type (text "processor") (last_of p ps) (text "exporter") x}
          (In-append_right (fan_in ++ chain_edges type p ps)
            (In-map (λ e. edge type (text "processor") (last_of p ps) (text "exporter") e) j))
          arrived))

-- Where no processor's name in a pipeline is empty, data gets from each of its receivers to each of
-- its exporters along the edges of the graph.
pub all_edges-Reaches :
    (lower upper : Text → Text) (metrics : List ComponentMetrics)
    (pipelines : List (Text × Option Pipeline)) {name : Text} {p : Option Pipeline} (r x : Text)
    → In (name, p) pipelines
    → All IsNamed (processors_of p)
    → In r (receivers_of p)
    → In x (exporters_of p)
    → Reaches
        (all_edges lower upper metrics pipelines)
        (node_id (text "receiver") (lower name) r)
        (node_id (text "exporter") (lower name) x)
unfolding all_edges
all_edges-Reaches lower upper metrics [] r x at n i j = elim at [ ]
all_edges-Reaches lower upper metrics ((name, p) ∷ rest) r x here n i j =
    Reaches-mono (λ e k. In-append_left (all_edges lower upper metrics rest) k)
      (pipeline_edges-Reaches (lower name) (receivers_of p) (processors_of p) (exporters_of p) r x n
        i j)
all_edges-Reaches lower upper metrics ((other, q) ∷ rest) r x (there at) n i j =
    Reaches-mono
      (λ e k.
        In-append_right
          (pipeline_edges (lower other) (receivers_of q) (processors_of q) (exporters_of q)) k)
      (all_edges-Reaches lower upper metrics rest r x at n i j)

-- The number of edges: fan-in, chain and fan-out, or all pairs.
abbrev pub edge_count : ℕ → ℕ → ℕ → ℕ
edge_count receivers zero exporters = receivers * exporters
edge_count receivers (suc n) exporters = receivers + n + exporters

length-all_pairs :
    (type : Text) (receivers exporters : List Text)
    → length (all_pairs type receivers exporters) ≡ length receivers * length exporters
length-all_pairs type [] es = omega arith
length-all_pairs type (r ∷ rs) es =
    let row = λ (e : Text). edge type (text "receiver") r (text "exporter") e in
    grind (
      arith,
      length-append (map row es) (all_pairs type rs es),
      length-map row es,
      length-all_pairs type rs es,
    )

length-chain_edges :
    (type p : Text) (processors : List Text)
    → IsNamed p
    → All IsNamed processors
    → length (chain_edges type p processors) ≡ length processors
length-chain_edges type p [] n h = refl
length-chain_edges type p (q ∷ qs) n h = rw (n, h.0) (ap suc (length-chain_edges type q qs h.0 h.1))

-- Where no processor's name is empty, a pipeline with processors has an edge for each receiver and
-- exporter and between neighbouring processors; one without has an edge for each pair of a receiver
-- and an exporter.
pub length-pipeline_edges :
    (type : Text) (receivers processors exporters : List Text)
    → All IsNamed processors
    → length (pipeline_edges type receivers processors exporters)
      ≡ edge_count (length receivers) (length processors) (length exporters)
unfolding pipeline_edges
length-pipeline_edges type rs [] es n = length-all_pairs type rs es
length-pipeline_edges type rs (p ∷ ps) es n =
    let into = λ (r : Text). edge type (text "receiver") r (text "processor") p in
    let out = λ (e : Text). edge type (text "processor") (last_of p ps) (text "exporter") e in
    omega (
      arith,
      length-append (map into rs ++ chain_edges type p ps) (map out es),
      length-append (map into rs) (chain_edges type p ps),
      length-map into rs,
      length-map out es,
      length-chain_edges type p ps n.0 n.1,
    )
