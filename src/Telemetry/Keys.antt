-- ===== src/Telemetry/Keys.antt =====
-- TelemetryLogsView.tsx: the key of the cache tells the query.
use otel_hive.Base.{
  ℕ, ◌≡◌, refl, sym, ap, ◌∙◌, Option, [], ◌∷◌, ◌++◌, length, drop, ◌==◌, if◌then◌else◌,
}
use otel_hive.Text.{Text, text, text_eq}
use otel_hive.Text.Laws.{drop-length_append}
use otel_hive.Telemetry.{
  SeverityFilter, all, error, warn, info, debug, severity_name, LogsFilter, logs_key, logs_query,
}

-- What stands before the first dash, and what stands after it.
abbrev before_dash : Text → Text
before_dash [] = []
before_dash (c ∷ s) = if c == b'-' then [] else c ∷ before_dash s

abbrev after_dash : Text → Text
after_dash [] = []
after_dash (c ∷ s) = if c == b'-' then s else after_dash s

filter_text : SeverityFilter → Text → Text
filter_text severity search = severity_name severity ++ (b'-' ∷ search)

-- The severity of that name.
named : Text → SeverityFilter
unfolding text_eq
named s =
    if text_eq s (text "error")
    then error
    else if text_eq s (text "warn")
    then warn
    else if text_eq s (text "info")
    then info
    else if text_eq s (text "debug")
    then debug
    else all

read_severity :
    (severity : SeverityFilter) (search : Text)
    → named (before_dash (filter_text severity search)) ≡ severity
unfolding filter_text named
read_severity all search = refl
read_severity error search = refl
read_severity warn search = refl
read_severity info search = refl
read_severity debug search = refl

read_search :
    (severity : SeverityFilter) (search : Text) → after_dash (filter_text severity search) ≡ search
unfolding filter_text
read_search all search = refl
read_search error search = refl
read_search warn search = refl
read_search info search = refl
read_search debug search = refl

cancel : (pre s t : Text) → pre ++ s ≡ pre ++ t → s ≡ t
cancel pre s t e =
    sym (drop-length_append pre s) ∙ ap (drop (length pre)) e ∙ drop-length_append pre t

-- In one view, filters that have the same key in the cache ask for the same logs.
pub logs_key-logs_query :
    (agent_id group_id : Option Text) (f g : LogsFilter) (now : ℕ)
    → logs_key agent_id group_id f ≡ logs_key agent_id group_id g
    → logs_query agent_id group_id f now ≡ logs_query agent_id group_id g now
unfolding logs_key logs_query filter_text
logs_key-logs_query agent_id group_id f g now e =
    let same : filter_text f.severity f.search ≡ filter_text g.severity g.search = cancel _ _ _ e in
    let severity : f.severity ≡ g.severity =
      sym (read_severity f.severity f.search)
      ∙ ap (λ s. named (before_dash s)) same
      ∙ read_severity g.severity g.search in
    let search : f.search ≡ g.search =
      sym (read_search f.severity f.search)
      ∙ ap after_dash same
      ∙ read_search g.severity g.search in
    rw (severity, search) refl
