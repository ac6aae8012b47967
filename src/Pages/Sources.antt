-- ===== src/Pages/Sources.antt =====
-- ui/src/pages/GitSources.tsx: the page of the git sources, with its form for a new source or an old
-- one. `mutate`, which fetches the list anew, is taken not to throw, as SWR documents.
pub mod Sheet
pub mod Rows
mod Tests
use otel_hive.Base.{
  ℕ, zero, suc, ◌+◌, ◌-◌, ◌/◌, ◌%◌, Bool, true, false, Option, none, some, List, [], ◌∷◌, ◌++◌, ltb,
  leb, if◌then◌else◌,
}
use otel_hive.Text.{Text, text, text_eq, decimal}
use otel_hive.Editing.{message_or}

pub data ProviderType : Type 0 where
  github gitlab gitea http : ProviderType

pub record GitSource : Type 0 where
  pub id : Text
  pub name : Text
  pub repo_url : Text
  pub branch : Text
  pub config_root : Text
  pub provider : ProviderType
  pub poll_interval_seconds : ℕ

pub record CreateGitSourceRequest : Type 0 where
  pub name : Text
  pub repo_url : Text
  pub token : Text
  pub branch : Text
  pub config_root : Text
  pub provider : ProviderType
  pub poll_interval_seconds : ℕ
  pub webhook_secret : Text

-- The seconds, minutes, hours or days since, from two times in milliseconds. A time that is yet to
-- come gives negative seconds.
unfoldable pub ago : ℕ → ℕ → Text
unfolding decimal
ago now then_ =
    let diff = (now - then_) / 1000 in
    if ltb now then_
    then text "-" ++ (decimal ((then_ - now + 999) / 1000) ++ text "s ago")
    else if ltb diff 60
    then decimal diff ++ text "s ago"
    else if ltb diff 3600
    then decimal (diff / 60) ++ text "m ago"
    else if ltb diff 86400
    then decimal (diff / 3600) ++ text "h ago"
    else decimal (diff / 86400) ++ text "d ago"

-- `time_of` is `new Date(s).getTime()`, and 8212 the code of the dash.
unfoldable pub relative_time : (Text → ℕ) → ℕ → Option Text → Text
unfolding ago
relative_time time_of now none = 8212 ∷ []
relative_time time_of now (some []) = 8212 ∷ []
relative_time time_of now (some (c ∷ ts)) = ago now (time_of (c ∷ ts))

abbrev pub empty_form : CreateGitSourceRequest
empty_form = record {
  name = [];
  repo_url = [];
  token = [];
  branch = text "main";
  config_root = text "configs";
  provider = github;
  poll_interval_seconds = 300;
  webhook_secret = [];
}

-- The form of a source; its secrets are not sent by the server.
abbrev pub form_of : GitSource → CreateGitSourceRequest
form_of gs = record {
  name = gs.name;
  repo_url = gs.repo_url;
  token = [];
  branch = gs.branch;
  config_root = gs.config_root;
  provider = gs.provider;
  poll_interval_seconds = gs.poll_interval_seconds;
  webhook_secret = [];
}

pub data SourceRequest : Type 0 where
  create_source : CreateGitSourceRequest → SourceRequest
  update_source : Text → CreateGitSourceRequest → SourceRequest
  delete_source : Text → SourceRequest
  trigger_sync : Text → SourceRequest

pub record SourcesPage : Type 0 where
  pub syncing : Option Text
  pub sheet_open : Bool
  pub edit_target : Option GitSource
  pub delete_target : Option GitSource
  pub form : CreateGitSourceRequest
  pub form_error : Option Text
  pub saving : Bool
  pub sent : List SourceRequest

pub data SourcesEvent : Type 0 where
  open_create : SourcesEvent
  open_edit : GitSource → SourcesEvent
  -- The user changes the form, or closes the sheet.
  set_form : CreateGitSourceRequest → SourcesEvent
  close_sheet : SourcesEvent
  press_save : SourcesEvent
  -- The request of the save is answered, and then the list is fetched anew.
  save_done : SourcesEvent
  save_reloaded : SourcesEvent
  save_failed : Option Text → SourcesEvent
  ask_delete : GitSource → SourcesEvent
  cancel_delete : SourcesEvent
  press_delete : SourcesEvent
  delete_done : SourcesEvent
  press_sync : Text → SourcesEvent
  sync_ended : SourcesEvent

abbrev pub source_request : Option GitSource → CreateGitSourceRequest → SourceRequest
source_request none form = create_source form
source_request (some gs) form = update_source gs.id form

abbrev pub delete_request : Option GitSource → List SourceRequest
delete_request none = []
delete_request (some gs) = delete_source gs.id ∷ []

-- `syncing === gs.id`
abbrev pub is_syncing : Option Text → Text → Bool
is_syncing none id = false
is_syncing (some other) id = text_eq other id

-- The save button is disabled while a save is under way, and the button of a source while it is the
-- last one whose synchronisation was asked for.
unfoldable pub sources_step : SourcesPage → SourcesEvent → SourcesPage
unfolding text_eq
sources_step s open_create = record s {
  edit_target = none;
  form = empty_form;
  form_error = none;
  sheet_open = true;
}
sources_step s (open_edit gs) = record s {
  edit_target = some gs;
  form = form_of gs;
  form_error = none;
  sheet_open = true;
}
sources_step s (set_form form) = record s { form = form }
sources_step s close_sheet = record s { sheet_open = false }
sources_step s press_save = if s.saving then s else (record s {
  saving = true;
  form_error = none;
  sent = s.sent ++ (source_request s.edit_target s.form ∷ []);
})
sources_step s save_done = record s { sheet_open = false }
sources_step s save_reloaded = record s { saving = false }
sources_step s (save_failed e) = record s {
  form_error = some (message_or (text "Failed to save") e);
  saving = false;
}
sources_step s (ask_delete gs) = record s { delete_target = some gs }
sources_step s cancel_delete = record s { delete_target = none }
sources_step s press_delete = record s { sent = s.sent ++ delete_request s.delete_target }
sources_step s delete_done = record s { delete_target = none }
sources_step s (press_sync id) =
    if is_syncing s.syncing id
    then s
    else (record s { syncing = some id; sent = s.sent ++ (trigger_sync id ∷ []) })
sources_step s sync_ended = record s { syncing = none }

unfoldable pub sources_run : SourcesPage → List SourcesEvent → SourcesPage
unfolding sources_step
sources_run s [] = s
sources_run s (e ∷ es) = sources_run (sources_step s e) es
