-- ===== src/Pages/Configs.antt =====
-- ui/src/pages/Configs.tsx: the page that lists the configurations and edits one of them.
-- ui/src/components/configs/ConfigEditorHeader.tsx says when its save button can be pressed.
pub mod Saved
pub mod Title
pub mod Named
pub mod Listed
mod Tests
use otel_hive.Base.{
  ℕ, suc, ◌+◌, Bool, true, false, not, ◌&&◌, ◌||◌, Option, none, some, List, [], ◌∷◌, ◌++◌,
  if◌then◌else◌,
}
use otel_hive.Text.{Text, text, text_eq, truthy}

pub record Config : Type 0 where
  pub id : Text
  pub name : Option Text
  pub group_id : Option Text
  pub content : Text
  pub version : ℕ

pub data PageMode : Type 0 where
  list_mode create_mode edit_mode : PageMode

abbrev pub is_text : Option Text → Text → Bool
is_text none t = false
is_text (some s) t = text_eq s t

abbrev pub is_present : Option Text → Bool
is_present o = elim (truthy o) [ none ↦ false | some t ↦ true ]

-- `mode`, from the property of the page or the parameters of the address.
unfoldable pub page_mode : Option PageMode → Option Text → Option Text → PageMode
unfolding text_eq
page_mode (some mode) mode_param config_id = mode
page_mode none mode_param config_id =
    if is_text mode_param (text "new")
    then create_mode
    else if is_present config_id || is_text mode_param (text "edit")
    then edit_mode
    else list_mode

abbrev pub lines_of : List Text → Text
lines_of [] = []
lines_of (l ∷ ls) = l ++ (10 ∷ lines_of ls)

abbrev pub default_config : Text
default_config = lines_of (
    text "receivers:"
    ∷ text "  otlp:"
    ∷ text "    protocols:"
    ∷ text "      grpc:"
    ∷ text "        endpoint: 0.0.0.0:4317"
    ∷ text "      http:"
    ∷ text "        endpoint: 0.0.0.0:4318"
    ∷ []
    ∷ text "processors:"
    ∷ text "  batch:"
    ∷ text "    timeout: 10s"
    ∷ text "    send_batch_size: 1024"
    ∷ []
    ∷ text "exporters:"
    ∷ text "  otlp:"
    ∷ text "    endpoint: localhost:4317"
    ∷ text "    tls:"
    ∷ text "      insecure: true"
    ∷ []
    ∷ text "service:"
    ∷ text "  pipelines:"
    ∷ text "    traces:"
    ∷ text "      receivers: [otlp]"
    ∷ text "      processors: [batch]"
    ∷ text "      exporters: [otlp]"
    ∷ text "    metrics:"
    ∷ text "      receivers: [otlp]"
    ∷ text "      processors: [batch]"
    ∷ text "      exporters: [otlp]"
    ∷ text "    logs:"
    ∷ text "      receivers: [otlp]"
    ∷ text "      processors: [batch]"
    ∷ text "      exporters: [otlp]"
    ∷ [])

pub data Request : Type 0 where
  update_config : (id name content : Text) (version : ℕ) → Request
  create_config : (name : Text) (group_id : Option Text) (content : Text) (version : ℕ) → Request

-- `hash_${Date.now()}`, which a creation sends too, is left out.
pub record ConfigsPage : Type 0 where
  pub mode : PageMode
  pub current : Option Config
  pub editor_content : Text
  pub config_name : Text
  pub selected_group_id : Text
  pub is_saving : Bool
  pub show_versions : Bool
  pub sent : List Request

-- `s || fallback`
abbrev pub or_text : Option Text → Text → Text
or_text none fallback = fallback
or_text (some []) fallback = fallback
or_text (some (c ∷ s)) fallback = c ∷ s

-- The effect on the mode and the configuration that is fetched.
unfoldable pub load_editor : PageMode → Option Config → ConfigsPage → ConfigsPage
load_editor edit_mode (some config) s = record s {
  editor_content = config.content;
  config_name = or_text config.name (text "New Config");
  selected_group_id = or_text config.group_id [];
}
load_editor edit_mode none s = s
load_editor create_mode current s = record s {
  editor_content = default_config;
  config_name = text "New Config";
  selected_group_id = [];
}
load_editor list_mode current s = s

-- `group_id: selectedGroupId || undefined`
abbrev pub or_undefined : Text → Option Text
or_undefined [] = none
or_undefined (c ∷ s) = some (c ∷ s)

unfoldable pub save_request : PageMode → Option Config → ConfigsPage → Request
save_request edit_mode (some config) s =
    update_config config.id s.config_name s.editor_content (config.version + 1)
save_request _ _ s =
    create_config s.config_name (or_undefined s.selected_group_id) s.editor_content 1

abbrev pub can_save : Text → Bool
can_save [] = false
can_save (c ∷ s) = true

pub data ConfigsEvent : Type 0 where
  -- The mode is another, or the fetched configuration is.
  shows : PageMode → Option Config → ConfigsEvent
  type_content rename choose_group : Text → ConfigsEvent
  open_versions : ConfigsEvent
  load_version : Config → ConfigsEvent
  press_save : ConfigsEvent
  -- The save button's request and the reloads after it went well, or one of them failed.
  saved save_failed : ConfigsEvent

-- The button is disabled while a request is under way or no group is chosen.
unfoldable pub configs_step : ConfigsPage → ConfigsEvent → ConfigsPage
unfolding load_editor save_request
configs_step s (shows mode current) =
    load_editor mode current (record s { mode = mode; current = current })
configs_step s (type_content content) = record s { editor_content = content }
configs_step s (rename name) = record s { config_name = name }
configs_step s (choose_group id) = record s { selected_group_id = id }
configs_step s open_versions = record s { show_versions = true }
configs_step s (load_version config) = record s {
  editor_content = config.content;
  show_versions = false;
}
configs_step s press_save =
    if s.is_saving || not (can_save s.selected_group_id)
    then s
    else (record s { is_saving = true; sent = s.sent ++ (save_request s.mode s.current s ∷ []) })
configs_step s saved = record s { is_saving = false; mode = list_mode }
configs_step s save_failed = record s { is_saving = false }

unfoldable pub configs_run : ConfigsPage → List ConfigsEvent → ConfigsPage
unfolding configs_step
configs_run s [] = s
configs_run s (e ∷ es) = configs_run (configs_step s e) es
