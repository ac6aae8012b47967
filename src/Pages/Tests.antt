-- ===== src/Pages/Tests.antt =====
-- Times and modes, and instances of the theorems on the pages.
use otel_hive.Base.{◌≡◌, refl, true, false, none, some, List, [], ◌∷◌, All}
use otel_hive.Text.{text, text_eq, trim}
use otel_hive.Clients.{send_config_to_agent}
use otel_hive.Pages.Audit.{AuditPage, total_pages, handle_send_config}
use otel_hive.Pages.Signin.{SignForm, can_submit}
use otel_hive.Pages.Configs.{
  Config, list_mode, edit_mode, page_mode, ConfigsPage, shows, press_save, configs_run,
}
use otel_hive.Pages.Configs.Saved.{IsNext, configs_run-IsNext}
use otel_hive.Pages.Sources.{GitSource, gitea, empty_form, SourcesPage, ago, sources_run}
use otel_hive.Pages.Sources
use otel_hive.Pages.Keys
use otel_hive.Pages.Keys.{
  KeysPage, KeysEvent, close_create, type_name, press_create, created, keys_run, keys_step,
  dialog_view, shows_key,
}
use otel_hive.Pages.Keys.Private.{AllOrderly}

an_hour : ago 3600000 0 ≡ text "1h ago"
unfolding ago
an_hour = refl

clock_behind : ago 0 500 ≡ text "-1s ago"
unfolding ago
clock_behind = refl

new_page : page_mode none none (some (text "7")) ≡ edit_mode
unfolding page_mode
new_page = refl

abbrev config : Config
config = record {
  id = text "7";
  name = some (text "edge");
  group_id = some (text "g");
  content = text "a: 1";
  version = 4;
}

abbrev configs_page : ConfigsPage
configs_page = record {
  mode = list_mode;
  current = none;
  editor_content = [];
  config_name = text "New Config";
  selected_group_id = [];
  is_saving = false;
  show_versions = false;
  sent = [];
}

configs_run-IsNext_example :
    All
      (IsNext (λ c. c ≡ config))
      (configs_run configs_page (shows edit_mode (some config) ∷ press_save ∷ [])).sent
configs_run-IsNext_example =
    configs_run-IsNext (λ c. c ≡ config) configs_page
      (shows edit_mode (some config) ∷ press_save ∷ []) tt tt (refl, tt)

abbrev source : GitSource
source = record {
  id = text "s1";
  name = text "main";
  repo_url = text "https://example.org/repo";
  branch = text "main";
  config_root = text "configs";
  provider = gitea;
  poll_interval_seconds = 60;
}

abbrev sources_page : SourcesPage
sources_page = record {
  syncing = none;
  sheet_open = false;
  edit_target = none;
  delete_target = none;
  form = empty_form;
  form_error = none;
  saving = false;
  sent = [];
}

abbrev keys_page : KeysPage
keys_page = record {
  create_open = false;
  new_key_name = [];
  creating = false;
  create_error = none;
  new_plaintext_key = none;
  revoking_id = none;
  sent = [];
}

abbrev session : List KeysEvent
session =
    Keys.open_create
    ∷ type_name (text "ci")
    ∷ press_create
    ∷ created (text "k1")
    ∷ close_create
    ∷ []

orderly : AllOrderly keys_page session
unfolding keys_step trim
orderly = (tt, (tt, (refl, (refl, (refl, tt)))))

resend :
    (sources_run sources_page (Sources.open_edit source ∷ Sources.press_save ∷ [])).sent
    ≡ Sources.update_source (text "s1") (Sources.form_of source) ∷ []
unfolding sources_run
resend = refl

abbrev sign_form : SignForm
sign_form = record {
  username = text "admin";
  password = text "secret123";
  confirm = text "secret123";
  error = none;
  loading = false;
}

strong : can_submit sign_form ≡ true
unfolding can_submit text_eq
strong = refl

three_pages : total_pages 101 ≡ 3
unfolding total_pages
three_pages = refl

-- An emptied editor sends the configuration that the agent runs.
emptied_editor :
    handle_send_config true (text "a1") [] (some (text "a: 1")) none
    ≡ some (send_config_to_agent (text "a1") (text "a: 1"))
unfolding handle_send_config
emptied_editor = refl

abbrev first_page : AuditPage
first_page = record { page = 1; event_filter = [] }
