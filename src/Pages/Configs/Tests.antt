-- ===== src/Pages/Configs/Tests.antt =====
-- Runs of the editor of a configuration with its title, rows of the list, and instances of theorems.
use otel_hive.Base.{◌≡◌, refl, false, none, some, List, [], ◌∷◌}
use otel_hive.Text.{text}
use otel_hive.Pages.Configs.{
  Config, list_mode, create_mode, edit_mode, ConfigsPage, shows, type_content, choose_group,
  press_save, configs_run,
}
use otel_hive.Pages.Configs.Title.{
  press_pencil, type_title, press_enter, Editor, EditorEvent, on_title, on_page, editor_run,
}
use otel_hive.Pages.Configs.Named.{IsNamed, editor_run-IsNamed}
use otel_hive.Pages.Configs.Listed.{
  listed_name, target_of, group_target, copy_step, copy_done, timer_ends,
}

abbrev page : ConfigsPage
page = record {
  mode = list_mode;
  current = none;
  editor_content = [];
  config_name = text "New Config";
  selected_group_id = [];
  is_saving = false;
  show_versions = false;
  sent = [];
}

abbrev first_version : Config
first_version = record {
  id = text "7";
  name = some (text "edge");
  group_id = some (text "g");
  content = text "a: 1";
  version = 4;
}

-- Another version that SWR fetches while the text is edited takes its place.
lost_edits :
    (configs_run page (
      shows edit_mode (some first_version)
      ∷ type_content (text "a: 2")
      ∷ shows edit_mode (some (record first_version { content = text "a: 3"; version = 5 }))
      ∷ [])).editor_content
    ≡ text "a: 3"
unfolding configs_run
lost_edits = refl

abbrev editor : Editor
editor = record {
  title = record { value = text "New Config"; is_editing = false; edit_value = text "New Config" };
  page = page;
}

-- Blanks that are typed around the same name are there again when it is edited next.
blanks_stay :
    (editor_run editor (
      on_title press_pencil
      ∷ on_title (type_title (text " New Config "))
      ∷ on_title press_enter
      ∷ [])).title.edit_value
    ≡ text " New Config "
unfolding editor_run
blanks_stay = refl

blank_name : listed_name (some (text "  ")) ≡ text "Unnamed Config"
unfolding listed_name
blank_name = refl

group_only : target_of (some []) (some (text "0123456789")) ≡ group_target (text "01234567...")
unfolding target_of
group_only = refl

-- The first timer takes the icon of the second copy away.
icon_gone :
    (copy_step
      (text "a")
      (copy_step
        (text "a")
        (copy_step (text "a") (record { copied = false; timers = 0; clipboard = [] }) copy_done)
        copy_done)
      timer_ends).copied
    ≡ false
unfolding copy_step
icon_gone = refl

abbrev events : List EditorEvent
events =
    on_page (shows create_mode none)
    ∷ on_title (type_title [])
    ∷ on_title press_enter
    ∷ on_page (choose_group (text "g"))
    ∷ on_page press_save
    ∷ []

editor_run-IsNamed_example : IsNamed (editor_run editor events).page
editor_run-IsNamed_example =
    editor_run-IsNamed events editor (record { name = λ e. cc; requests = tt })
