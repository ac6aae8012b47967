-- ===== src/Flow/Boxes.antt =====
-- PipelineGenerator.tsx: the sections of a graph as boxes, and what stands in them.
use otel_hive.Base.{
  ℕ, ◌+◌, ◌≤◌, ◌≡◌, refl, ap, ◌∙◌, append_assoc, sym, List, [], ◌∷◌, ◌++◌, In, there, All,
}
use otel_hive.Text.{Text}
use otel_hive.Flow.{NodeData, message, section, component, Node, Graph, place}
use otel_hive.Flow.Geometry.{Inside}

-- A section with its place and size.
pub record Box : Type 0 where
  pub x : ℕ
  pub y : ℕ
  pub width : ℕ
  pub height : ℕ

abbrev boxes_of : (x y : ℕ) → NodeData → List Box
boxes_of x y (message label) = []
boxes_of x y (section type label width height metrics) =
    record { x = x; y = y; width = width; height = height } ∷ []
boxes_of x y (component type label pipeline metrics) = []

-- The sections among the nodes, in order.
abbrev pub sections : List Node → List Box
sections [] = []
sections (n ∷ ns) = boxes_of n.x n.y n.data_ ++ sections ns

-- Each section ends at least 40 above the sections after it.
abbrev pub Stacked : List Box → Type 0
Stacked [] = Unit
Stacked (b ∷ bs) = All (λ later. b.y + b.height + 40 ≤ later.y) bs × Stacked bs

-- A component stands inside one of the sections.
abbrev DrawnAs : List Box → Node → NodeData → Type 0
DrawnAs boxes n (message label) = Unit
DrawnAs boxes n (section type label width height metrics) = Unit
DrawnAs boxes n (component type label pipeline metrics) =
    (b : Box) × In b boxes × Inside b.x b.y b.width b.height n

abbrev pub IsDrawn : List Box → Node → Type 0
IsDrawn boxes n = DrawnAs boxes n n.data_

-- The layout of a graph.
pub record IsLaidOut (g : Graph) : Type 0 where
  pub stacked : Stacked (sections g.nodes)
  pub drawn : All (IsDrawn (sections g.nodes)) g.nodes

pub sections-place :
    (f : Text → ℕ → Node) (names : List Text) (i : ℕ)
    → ((name : Text) (j : ℕ) → boxes_of (f name j).x (f name j).y (f name j).data_ ≡ [])
    → sections (place f names i) ≡ []
sections-place f [] i h = refl
sections-place f (name ∷ names) i h = rw (h name i) (sections-place f names (i + 1) h)

pub sections-append : (xs ys : List Node) → sections (xs ++ ys) ≡ sections xs ++ sections ys
sections-append [] ys = refl
sections-append (x ∷ xs) ys =
    ap (◌++◌ (boxes_of x.x x.y x.data_)) (sections-append xs ys)
    ∙ sym (append_assoc (boxes_of x.x x.y x.data_) (sections xs) (sections ys))

pub All-mono :
    {P Q : Node → Type 0} (ns : List Node) → ((n : Node) → P n → Q n) → All P ns → All Q ns
All-mono [] f h = tt
All-mono (n ∷ ns) f h = (f n h.0, All-mono ns f h.1)

pub DrawnAs-box :
    (boxes : List Box) (b : Box) (n : Node) (d : NodeData)
    → In b boxes
    → Inside b.x b.y b.width b.height n
    → DrawnAs boxes n d
DrawnAs-box boxes b n (message label) i h = tt
DrawnAs-box boxes b n (section type label width height metrics) i h = tt
DrawnAs-box boxes b n (component type label pipeline metrics) i h = (b, i, h)

pub DrawnAs-cons :
    (boxes : List Box) (b : Box) (n : Node) (d : NodeData)
    → DrawnAs boxes n d
    → DrawnAs (b ∷ boxes) n d
DrawnAs-cons boxes b n (message label) h = tt
DrawnAs-cons boxes b n (section type label width height metrics) h = tt
DrawnAs-cons boxes b n (component type label pipeline metrics) (c, i, h) = (c, there i, h)
