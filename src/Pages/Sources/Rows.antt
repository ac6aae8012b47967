-- ===== src/Pages/Sources/Rows.antt =====
-- GitSources.tsx: a row of the list of the sources, and the texts of the sheet.
use otel_hive.Base.{Option, none, [], ◌∷◌, if◌then◌else◌}
use otel_hive.Text.{Text, text, text_eq, truthy}

pub record SyncedSource : Type 0 where
  pub branch : Text
  pub config_root : Text
  pub last_sync_status : Text
  pub last_sync_error : Option Text

pub data StatusBadge : Type 0 where
  synced failed_badge : StatusBadge
  other_badge : Text → StatusBadge

-- `s || fallback`
abbrev pub or_default : Text → Text → Text
or_default [] fallback = fallback
or_default (c ∷ s) fallback = c ∷ s

unfoldable pub status_badge_of : Text → StatusBadge
unfolding text_eq
status_badge_of status =
    if text_eq status (text "success")
    then synced
    else if text_eq status (text "failed")
    then failed_badge
    else other_badge (or_default status (text "pending"))

-- The message below the badge.
unfoldable pub sync_error : SyncedSource → Option Text
unfolding text_eq
sync_error gs =
    if text_eq gs.last_sync_status (text "failed") then truthy gs.last_sync_error else none

pub record SourceRow : Type 0 where
  pub branch : Text
  pub config_root : Text
  pub badge : StatusBadge
  pub error : Option Text

unfoldable pub source_row : SyncedSource → SourceRow
unfolding status_badge_of sync_error
source_row gs = record {
  branch = or_default gs.branch (text "main");
  config_root = or_default gs.config_root (text "configs");
  badge = status_badge_of gs.last_sync_status;
  error = sync_error gs;
}
