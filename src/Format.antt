-- ===== src/Format.antt =====
-- ui/src/utils/index.ts: how counts, times and texts are shortened; formatNumber of
-- ui/src/components/agent-details/AgentMetrics.tsx and formatThroughput of ui/src/utils/yaml-parser.ts.
-- `to_fixed` is `(count / scale).toFixed(1)`; counts are natural numbers.
pub mod Counts
mod Tests
use otel_hive.Base.{
  ℕ, zero, suc, ◌+◌, ◌-◌, ◌*◌, ◌/◌, ◌%◌, Bool, ◌&&◌, List, [], ◌∷◌, ◌++◌, length, take, drop, leb,
  ltb, if◌then◌else◌,
}
use otel_hive.Text.{Text, text, text_eq, decimal}

pub data Scale : Type 0 where
  thousand million billion : Scale

abbrev pub size : Scale → ℕ
size thousand = 1000
size million = 1000000
size billion = 1000000000

abbrev pub letter : Scale → Text
letter thousand = text "K"
letter million = text "M"
letter billion = text "B"

-- `s.endsWith(t)`
unfoldable pub ends_with : Text → Text → Bool
unfolding text_eq
ends_with s t = leb (length t) (length s) && text_eq (drop (length s - length t) s) t

-- "Remove trailing .0 if present": `slice(0, -2)`.
unfoldable pub without_zero : Text → Text
unfolding ends_with
without_zero s = if ends_with s (text ".0") then take (length s - 2) s else s

module _ (to_fixed : ℕ → Scale → Text) where
  abbrev pub scaled : ℕ → Scale → Text
  scaled count scale = without_zero (to_fixed count scale) ++ letter scale

  unfoldable pub format_count : ℕ → Text
  unfolding without_zero decimal
  format_count count =
      if ltb count 1000
      then decimal count
      else if ltb count 1000000
      then scaled count thousand
      else if ltb count 1000000000
      then scaled count million
      else scaled count billion

  unfoldable pub format_number : ℕ → Text
  unfolding decimal
  format_number num =
      if leb 1000000 num
      then to_fixed num million ++ letter million
      else if leb 1000 num
      then to_fixed num thousand ++ letter thousand
      else decimal num

  -- Below 1 a natural number is 0.
  unfoldable pub format_throughput : ℕ → Text
  unfolding decimal
  format_throughput throughput =
      if leb 1000000 throughput
      then to_fixed throughput million ++ text "M/s"
      else if leb 1000 throughput
      then to_fixed throughput thousand ++ text "K/s"
      else if leb 1 throughput
      then decimal throughput ++ text "/s"
      else text "0.00/s"

unfoldable pub truncate_text : Text → ℕ → Text
truncate_text s max_length =
    if leb (length s) max_length then s else take max_length s ++ text "..."

abbrev pub since : ℕ → Text
since seconds =
    if ltb seconds 60
    then text "Just now"
    else if ltb seconds 3600
    then decimal (seconds / 60) ++ text "m ago"
    else if ltb seconds 86400
    then decimal (seconds / 3600) ++ text "h ago"
    else decimal (seconds / 86400) ++ text "d ago"

-- From two times in milliseconds; one that is yet to come is less than 60 seconds ago.
unfoldable pub format_relative_time : (now target : ℕ) → Text
unfolding decimal
format_relative_time now target = since ((now - target) / 1000)
