-- ===== src/Pages/Audit/Tests.antt =====
-- Rows of the audit log.
use otel_hive.Base.{◌≡◌, refl, none, some, length}
use otel_hive.Text.{text}
use otel_hive.Pages.Audit.Entries.{
  all_event_types, default, destructive, outline, event_badge_variant, audit_row,
}

types_to_choose : length all_event_types ≡ 17
types_to_choose = refl

created_badge : event_badge_variant (text "group.created") ≡ default
unfolding event_badge_variant
created_badge = refl

revoked_badge : event_badge_variant (text "api_key.revoked") ≡ destructive
unfolding event_badge_variant
revoked_badge = refl

login_badge : event_badge_variant (text "user.login") ≡ outline
unfolding event_badge_variant
login_badge = refl

by_the_system :
    audit_row
      (λ t. t)
      (record {
        timestamp = text "t";
        actor_name = none;
        event_type = text "agent.restarted";
        resource_type = some (text "agent");
        resource_id = some (text "0123456789");
        ip_address = some (text "::1");
      })
    ≡ record {
      timestamp = text "t";
      badge = event_badge_variant (text "agent.restarted");
      event_type = text "agent.restarted";
      actor = text "system";
      resource = text "agent/01234567";
      ip = text "::1";
    }
unfolding audit_row
by_the_system = refl
