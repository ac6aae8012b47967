-- ===== src/Telemetry/Tests.antt =====
-- Queries and slots of small views, and instances of the theorems on them.
use otel_hive.Base.{ℕ, ◌≤◌, ◌≡◌, refl, none, some, List, [], ◌∷◌, length, All}
use otel_hive.Text.{Text, text}
use otel_hive.Metrics.{MetricData}
use otel_hive.Telemetry.{
  all, error, LogsFilter, logs_key, set_severity_filter, fetched, logs_run, timeline, display_title,
}
use otel_hive.Telemetry.Timeline.{IsSlot, timeline-IsSlot}

abbrev errors : LogsFilter
errors = record { severity = error; search = text "a-b" }

key_of_errors : logs_key none (some (text "g1")) errors ≡ text "group-logs-g1-error-a-b"
unfolding logs_key
key_of_errors = refl

-- Two agents can have one key: the logs of the second are then those that are kept for the first.
abbrev everything : Text → LogsFilter
everything search = record { severity = all; search = search }

one_key :
    logs_key (some (text "a")) none (everything (text "all-x"))
    ≡ logs_key (some (text "a-all")) none (everything (text "x"))
unfolding logs_key
one_key = refl

-- A fetch for the earlier filter that is answered late leaves its logs with the new one.
late_logs :
    (logs_run
      (record { logs_data = []; filter = everything [] })
      (set_severity_filter error
        ∷ fetched (some (text "failed" ∷ []))
        ∷ fetched (some (text "started" ∷ []))
        ∷ [])).logs_data
    ≡ text "started" ∷ []
unfolding logs_run
late_logs = refl

group_title : display_title none none ≡ text "Group Logs"
unfolding display_title
group_title = refl

abbrev day_clock : Text → Text
day_clock stamp = stamp

abbrev metric : Text → ℕ → MetricData
metric stamp value = record {
  metric_name = text "m";
  value = value;
  timestamp = stamp;
  metric_attributes = none;
}

abbrev metrics : List MetricData
metrics = metric (text "10:00") 3 ∷ metric (text "09:00") 4 ∷ metric (text "10:00") 5 ∷ []

-- The slots come in the order of the data, not of time.
two_slots :
    timeline day_clock metrics
    ≡ record { time = text "10:00"; count = 2; total_value = 8 }
      ∷ record { time = text "09:00"; count = 1; total_value = 4 }
      ∷ []
unfolding timeline
two_slots = refl

timeline-IsSlot_example :
    All (IsSlot day_clock metrics) (timeline day_clock metrics)
    × (length (timeline day_clock metrics) ≤ 20)
timeline-IsSlot_example = timeline-IsSlot day_clock metrics
