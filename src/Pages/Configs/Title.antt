-- ===== src/Pages/Configs/Title.antt =====
-- ui/src/components/configs/EditableConfigTitle.tsx: the name of a configuration, which can be edited
-- in the header of its editor (ConfigEditorHeader.tsx).
use otel_hive.Base.{Bool, true, false, Option, none, some, List, [], ◌∷◌, if◌then◌else◌}
use otel_hive.Text.{Text, text_eq, trim}
use otel_hive.Pages.Configs.{ConfigsPage, ConfigsEvent, rename, configs_step}

pub record Title : Type 0 where
  pub value : Text
  pub is_editing : Bool
  pub edit_value : Text

pub data TitleEvent : Type 0 where
  press_pencil : TitleEvent
  type_title : Text → TitleEvent
  press_enter press_check : TitleEvent
  press_escape press_cross : TitleEvent

-- The property and the effect that copies it, which runs when it is another.
unfoldable pub given_value : Text → Title → Title
unfolding text_eq
given_value value t =
    if text_eq value t.value then t else (record t { value = value; edit_value = value })

-- `handleSave` for the trimmed text, with the name that `onChange` is called with.
abbrev pub save_trimmed : Text → Title → Title × Option Text
save_trimmed [] t = (t, none)
save_trimmed (c ∷ name) t = (record t { is_editing = false }, some (c ∷ name))

unfoldable pub handle_save : Title → Title × Option Text
unfolding trim
handle_save t = save_trimmed (trim t.edit_value) t

abbrev pub handle_cancel : Title → Title × Option Text
handle_cancel t = (record t { edit_value = t.value; is_editing = false }, none)

unfoldable pub title_step : Title → TitleEvent → Title × Option Text
unfolding handle_save
title_step t press_pencil = (record t { is_editing = true }, none)
title_step t (type_title name) = (record t { edit_value = name }, none)
title_step t press_enter = handle_save t
title_step t press_check = handle_save t
title_step t press_escape = handle_cancel t
title_step t press_cross = handle_cancel t

-- The editor with its header.
pub record Editor : Type 0 where
  pub title : Title
  pub page : ConfigsPage

pub data EditorEvent : Type 0 where
  on_title : TitleEvent → EditorEvent
  on_page : ConfigsEvent → EditorEvent

-- `onChange` is `setConfigName`.
unfoldable pub renamed : Option Text → ConfigsPage → ConfigsPage
unfolding configs_step
renamed none s = s
renamed (some name) s = configs_step s (rename name)

abbrev pub rendered : Title → ConfigsPage → Editor
rendered t s = record { title = given_value s.config_name t; page = s }

-- A name is given in the title only.
unfoldable pub editor_step : Editor → EditorEvent → Editor
unfolding title_step renamed given_value
editor_step e (on_title event) =
    let (t, name) = title_step e.title event in rendered t (renamed name e.page)
editor_step e (on_page (rename name)) = e
editor_step e (on_page event) = rendered e.title (configs_step e.page event)

unfoldable pub editor_run : Editor → List EditorEvent → Editor
unfolding editor_step
editor_run e [] = e
editor_run e (event ∷ events) = editor_run (editor_step e event) events
