-- ===== src/Flow/Geometry.antt =====
-- PipelineGenerator.tsx: columns and rows of nodes fit into their section.
use otel_hive.Base.{ℕ, zero, suc, ◌+◌, ◌-◌, ◌*◌, ◌/◌, ◌≤◌, ◌<◌, List, [], ◌∷◌, length, All, arith}
use otel_hive.Text.{Text}
use otel_hive.Flow.{Node, place, section_height, section_width, column_height, start_y, exporter_x}

-- A node, 100 high as the layout takes it to be, begins inside a box and is not below it. The layout
-- says nothing of a node's width.
abbrev pub Inside : (x y width height : ℕ) → Node → Type 0
Inside x y width height n = (x ≤ n.x) × (n.x < x + width) × (y ≤ n.y) × (n.y + 100 ≤ y + height)

pub place-All :
    (P : Node → Type 0) (f : Text → ℕ → Node) (names : List Text) (i : ℕ)
    → ((name : Text) (j : ℕ) → j < i + length names → P (f name j))
    → All P (place f names i)
place-All P f [] i h = tt
place-All P f (name ∷ names) i h =
    (h name i (omega arith), place-All P f names (i + 1) (λ a j lt. h a j (omega (arith, lt))))

-- A column of nodes fits: it is centred, and the section is 160 higher than it.
pub column_fits :
    (y height count j : ℕ)
    → 320 ≤ height
    → column_height count + 160 ≤ height
    → j < count
    → (y ≤ start_y (y + height / 2) count + j * 120)
      × (start_y (y + height / 2) count + j * 120 + 100 ≤ y + height)
column_fits y height zero j h k lt = omega (arith, lt)
column_fits y height (suc n) j h k lt = (omega (arith, h, k, lt), omega (arith, h, k, lt))

pub row_fits :
    (y height : ℕ)
    → 320 ≤ height
    → (y ≤ y + height / 2 - 30) × (y + height / 2 - 30 + 100 ≤ y + height)
row_fits y height h = (omega (arith, h), omega (arith, h))

pub height_lem :
    (receivers exporters : ℕ)
    → (320 ≤ section_height receivers exporters)
      × (column_height receivers + 160 ≤ section_height receivers exporters)
      × (column_height exporters + 160 ≤ section_height receivers exporters)
height_lem receivers exporters = (omega arith, omega arith, omega arith)

pub width_lem : (processors j : ℕ) → j < processors → 350 + j * 220 < 50 + section_width processors
width_lem processors j lt = omega (arith, lt)

pub exporter_lem :
    (processors : ℕ)
    → (50 ≤ exporter_x processors) × (exporter_x processors < 50 + section_width processors)
exporter_lem zero = (omega arith, omega arith)
exporter_lem (suc n) = (omega arith, omega arith)
