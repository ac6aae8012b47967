-- ===== src/Pages/Sources/Tests.antt =====
-- Rows of the git sources, and runs of their page.
use otel_hive.Base.{◌≡◌, refl, false, none, some, [], ◌∷◌}
use otel_hive.Text.{text}
use otel_hive.Pages.Sources.{
  CreateGitSourceRequest, create_source, trigger_sync, empty_form, SourcesPage, open_create,
  set_form, press_save, press_sync, sources_run,
}
use otel_hive.Pages.Sources.Rows.{source_row, other_badge}

abbrev page : SourcesPage
page = record {
  syncing = none;
  sheet_open = false;
  edit_target = none;
  delete_target = none;
  form = empty_form;
  form_error = none;
  saving = false;
  sent = [];
}

-- The sheet says that the interval is 30 seconds at least, and that a name is needed.
abbrev too_short : CreateGitSourceRequest
too_short = record empty_form { poll_interval_seconds = 1 }

sent_as_typed :
    (sources_run page (open_create ∷ set_form too_short ∷ press_save ∷ [])).sent
    ≡ create_source too_short ∷ []
unfolding sources_run
sent_as_typed = refl

one_sync :
    (sources_run page (press_sync (text "s") ∷ press_sync (text "s") ∷ [])).sent
    ≡ trigger_sync (text "s") ∷ []
unfolding sources_run
one_sync = refl

pending_row :
    source_row (record {
      branch = [];
      config_root = text "otel";
      last_sync_status = [];
      last_sync_error = some (text "x");
    })
    ≡ record {
      branch = text "main";
      config_root = text "otel";
      badge = other_badge (text "pending");
      error = none;
    }
unfolding source_row
pending_row = refl
