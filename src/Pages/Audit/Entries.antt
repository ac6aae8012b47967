-- ===== src/Pages/Audit/Entries.antt =====
-- AuditLog.tsx: the types of events to choose from, and a row of the log.
use otel_hive.Base.{◌||◌, Option, none, some, List, [], ◌∷◌, ◌++◌, take, if◌then◌else◌}
use otel_hive.Text.{Text, text, truthy}
use otel_hive.Format.{ends_with}

abbrev pub Category : Type 0
Category = Text × List Text

-- `EVENT_CATEGORIES`
abbrev pub event_categories : List Category
event_categories =
    (text "All events", [])
    ∷ (
      text "Auth",
      text "user.login"
          ∷ text "user.logout"
          ∷ text "user.setup"
          ∷ text "api_key.created"
          ∷ text "api_key.revoked"
          ∷ [],
    )
    ∷ (
      text "Configs",
      text "config.created"
          ∷ text "config.updated"
          ∷ text "config.deleted"
          ∷ text "config.pushed"
          ∷ [],
    )
    ∷ (text "Agents", text "agent.restarted" ∷ [])
    ∷ (text "Groups", text "group.created" ∷ text "group.updated" ∷ text "group.deleted" ∷ [])
    ∷ (
      text "Git Sources",
      text "git_source.created"
          ∷ text "git_source.updated"
          ∷ text "git_source.deleted"
          ∷ text "git_source.synced"
          ∷ [],
    )
    ∷ []

-- `Object.values(…).flat()`
abbrev pub flat : List Category → List Text
flat [] = []
flat ((name, events) ∷ categories) = events ++ flat categories

abbrev pub all_event_types : List Text
all_event_types = flat event_categories

pub data BadgeVariant : Type 0 where
  default secondary destructive outline : BadgeVariant

unfoldable pub event_badge_variant : Text → BadgeVariant
unfolding ends_with
event_badge_variant event =
    if ends_with event (text ".deleted") || ends_with event (text ".revoked")
    then destructive
    else if ends_with event (text ".created") || ends_with event (text ".setup")
    then default
    else if ends_with event (text ".pushed")
        || ends_with event (text ".synced")
        || ends_with event (text ".restarted")
    then secondary
    else outline

pub record AuditEntry : Type 0 where
  pub timestamp : Text
  pub actor_name : Option Text
  pub event_type : Text
  pub resource_type : Option Text
  pub resource_id : Option Text
  pub ip_address : Option Text

pub record AuditRow : Type 0 where
  pub timestamp : Text
  pub badge : BadgeVariant
  pub event_type : Text
  pub actor : Text
  pub resource : Text
  pub ip : Text

abbrev pub or_text : Option Text → Text → Text
or_text none fallback = fallback
or_text (some s) fallback = s

abbrev pub short_id : Option Text → Text
short_id none = []
short_id (some id) = b'/' ∷ take 8 id

-- `format_timestamp` is the browser's text for a stamp, and 8212 the code of the dash.
unfoldable pub audit_row : (Text → Text) → AuditEntry → AuditRow
unfolding event_badge_variant
audit_row format_timestamp e = record {
  timestamp = format_timestamp e.timestamp;
  badge = event_badge_variant e.event_type;
  event_type = e.event_type;
  actor = or_text (truthy e.actor_name) (text "system");
  resource = elim (truthy e.resource_type) [
    | none ↦ []
    | some type ↦ type ++ short_id (truthy e.resource_id)
  ];
  ip = or_text (truthy e.ip_address) (8212 ∷ []);
}

-- What stands in place of the table.
unfoldable pub empty_text : Text → Text
empty_text [] = text "No audit events yet"
empty_text (c ∷ event_filter) = text "No events matching " ++ (34 ∷ (c ∷ event_filter)) ++ (34 ∷ [])
