-- ===== src/Format/Tests.antt =====
-- Counts and times as texts, and an instance of the theorem on counts.
use otel_hive.Base.{ℕ, ◌+◌, ◌*◌, ◌/◌, ◌≤◌, ◌<◌, arith, ◌≡◌, refl, ◌⊎◌}
use otel_hive.Text.{Text, text, decimal}
use otel_hive.Format.{
  Scale, thousand, million, billion, size, format_count, format_number, format_throughput,
  truncate_text, format_relative_time,
}
use otel_hive.Format.Counts.{tenths, IsNear, IsFixed, IsShown, format_count-IsShown}

-- The nearest tenth, the greater of two.
abbrev nearest : ℕ → Scale → ℕ
nearest count thousand = (20 * count + 1000) / 2000
nearest count million = (20 * count + 1000000) / 2000000
nearest count billion = (20 * count + 1000000000) / 2000000000

abbrev to_nearest : ℕ → Scale → Text
to_nearest count scale = tenths (nearest count scale)

nearest-IsNear : (count : ℕ) (scale : Scale) → IsNear count scale (nearest count scale)
nearest-IsNear count thousand = record { not_less = omega arith; not_more = omega arith }
nearest-IsNear count million = record { not_less = omega arith; not_more = omega arith }
nearest-IsNear count billion = record { not_less = omega arith; not_more = omega arith }

to_nearest-IsFixed : IsFixed to_nearest
to_nearest-IsFixed count scale h = (nearest count scale, refl, nearest-IsNear count scale)

-- The examples of the comment on `formatCount`.
commented : format_count to_nearest 69335 ≡ text "69.3K"
unfolding format_count
commented = refl

one_million : format_count to_nearest 1000000 ≡ text "1M"
unfolding format_count
one_million = refl

-- Just below a million the rounding is not followed by a change of the unit.
thousand_thousands : format_count to_nearest 999960 ≡ text "1000K"
unfolding format_count
thousand_thousands = refl

zero_kept : format_number to_nearest 2000 ≡ text "2.0K"
unfolding format_number
zero_kept = refl

no_throughput : format_throughput to_nearest 0 ≡ text "0.00/s"
unfolding format_throughput
no_throughput = refl

cut_text : truncate_text (text "collector") 4 ≡ text "coll..."
unfolding truncate_text
cut_text = refl

two_hours : format_relative_time 7200000 0 ≡ text "2h ago"
unfolding format_relative_time
two_hours = refl

format_count-IsShown_example :
    ((69335 < 1000) × (format_count to_nearest 69335 ≡ decimal 69335))
    ⊎ ((scale : Scale) × (size scale ≤ 69335)
        × (69335 < 1000 * size scale)
        × IsShown 69335 scale (format_count to_nearest 69335))
format_count-IsShown_example =
    format_count-IsShown to_nearest to_nearest-IsFixed 69335 (omega arith)
