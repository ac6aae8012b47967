-- ===== src/Pages/Configs/Named.antt =====
-- EditableConfigTitle.tsx with Configs.tsx: every configuration that is sent has a name.
use otel_hive.Base.{
  ℕ, ◌≡◌, ◌≢◌, refl, inl, inr, not, ◌||◌, Option, none, some, List, [], ◌∷◌, All, All-append,
  Bool-cases,
}
use otel_hive.Text.{Text, trim}
use otel_hive.Pages.Configs.{
  Config, PageMode, list_mode, create_mode, edit_mode, Request, update_config, create_config,
  ConfigsPage, or_text, load_editor, save_request, can_save, ConfigsEvent, shows, type_content,
  rename, choose_group, open_versions, load_version, press_save, saved, save_failed, configs_step,
}
use otel_hive.Pages.Configs.Title.{
  Title, TitleEvent, press_pencil, type_title, press_enter, press_check, press_escape, press_cross,
  save_trimmed, handle_save, title_step, Editor, EditorEvent, on_title, on_page, renamed,
  editor_step, editor_run,
}

abbrev pub name_of : Request → Text
name_of (update_config id name content version) = name
name_of (create_config name group_id content version) = name

-- The page has a name, and so has each configuration that it sent.
pub record IsNamed (s : ConfigsPage) : Type 0 where
  pub name : s.config_name ≢ []
  pub requests : All (λ r. name_of r ≢ []) s.sent

or_text-ne-nil : (o : Option Text) (c : ℕ) (t : Text) → or_text o (c ∷ t) ≢ []
or_text-ne-nil none c t e = cc
or_text-ne-nil (some []) c t e = cc
or_text-ne-nil (some (d ∷ s)) c t e = cc

load_editor-IsNamed :
    (mode : PageMode) (current : Option Config) (s : ConfigsPage)
    → IsNamed s
    → IsNamed (load_editor mode current s)
unfolding load_editor
load_editor-IsNamed list_mode current s h = h
load_editor-IsNamed create_mode current s h = record { name = λ e. cc; requests = h.requests }
load_editor-IsNamed edit_mode none s h = h
load_editor-IsNamed edit_mode (some config) s h = record {
  name = or_text-ne-nil config.name _ _;
  requests = h.requests;
}

save_request-name :
    (mode : PageMode) (current : Option Config) (s : ConfigsPage)
    → s.config_name ≢ []
    → name_of (save_request mode current s) ≢ []
unfolding save_request
save_request-name edit_mode (some config) s h = h
save_request-name edit_mode none s h = h
save_request-name list_mode current s h = h
save_request-name create_mode current s h = h

configs_step-IsNamed :
    (s : ConfigsPage) (e : ConfigsEvent)
    → ((name : Text) → e ≡ rename name → name ≢ [])
    → IsNamed s
    → IsNamed (configs_step s e)
unfolding configs_step
configs_step-IsNamed s (shows mode current) r h =
    load_editor-IsNamed mode current (record s { mode = mode; current = current })
      (record { name = h.name; requests = h.requests })
configs_step-IsNamed s (type_content content) r h = record { name = h.name; requests = h.requests }
configs_step-IsNamed s (rename name) r h = record { name = r name refl; requests = h.requests }
configs_step-IsNamed s (choose_group id) r h = record { name = h.name; requests = h.requests }
configs_step-IsNamed s open_versions r h = record { name = h.name; requests = h.requests }
configs_step-IsNamed s (load_version config) r h = record { name = h.name; requests = h.requests }
configs_step-IsNamed s press_save r h =
    elim (Bool-cases (s.is_saving || not (can_save s.selected_group_id))) [
      | inl e ↦ rw e h
      | inr e ↦ rw e (record {
        name = h.name;
        requests =
            All-append (λ q. name_of q ≢ []) s.sent (save_request s.mode s.current s ∷ [])
              h.requests (save_request-name s.mode s.current s h.name, tt);
      })
    ]
configs_step-IsNamed s saved r h = record { name = h.name; requests = h.requests }
configs_step-IsNamed s save_failed r h = record { name = h.name; requests = h.requests }

save_trimmed-ne-nil :
    (s : Text) (t : Title) (name : Text) → (save_trimmed s t).1 ≡ some name → name ≢ []
save_trimmed-ne-nil [] t name e h = cc
save_trimmed-ne-nil (c ∷ s) t name e h = cc

title_step-ne-nil :
    (t : Title) (event : TitleEvent) (name : Text) → (title_step t event).1 ≡ some name → name ≢ []
unfolding title_step handle_save
title_step-ne-nil t press_pencil name e = cc
title_step-ne-nil t (type_title typed) name e = cc
title_step-ne-nil t press_enter name e = save_trimmed-ne-nil (trim t.edit_value) t name e
title_step-ne-nil t press_check name e = save_trimmed-ne-nil (trim t.edit_value) t name e
title_step-ne-nil t press_escape name e = cc
title_step-ne-nil t press_cross name e = cc

renamed-IsNamed :
    (o : Option Text) (s : ConfigsPage)
    → ((name : Text) → o ≡ some name → name ≢ [])
    → IsNamed s
    → IsNamed (renamed o s)
unfolding renamed
renamed-IsNamed none s r h = h
renamed-IsNamed (some name) s r h = record { name = r name refl; requests = h.requests }

editor_step-IsNamed :
    (e : Editor) (event : EditorEvent) → IsNamed e.page → IsNamed (editor_step e event).page
unfolding editor_step
editor_step-IsNamed e (on_title event) h =
    renamed-IsNamed (title_step e.title event).1 e.page (title_step-ne-nil e.title event) h
editor_step-IsNamed e (on_page (rename name)) h = h
editor_step-IsNamed e (on_page (shows mode current)) h =
    configs_step-IsNamed e.page (shows mode current) (λ n k. cc) h
editor_step-IsNamed e (on_page (type_content content)) h =
    configs_step-IsNamed e.page (type_content content) (λ n k. cc) h
editor_step-IsNamed e (on_page (choose_group id)) h =
    configs_step-IsNamed e.page (choose_group id) (λ n k. cc) h
editor_step-IsNamed e (on_page open_versions) h =
    configs_step-IsNamed e.page open_versions (λ n k. cc) h
editor_step-IsNamed e (on_page (load_version config)) h =
    configs_step-IsNamed e.page (load_version config) (λ n k. cc) h
editor_step-IsNamed e (on_page press_save) h = configs_step-IsNamed e.page press_save (λ n k. cc) h
editor_step-IsNamed e (on_page saved) h = configs_step-IsNamed e.page saved (λ n k. cc) h
editor_step-IsNamed e (on_page save_failed) h =
    configs_step-IsNamed e.page save_failed (λ n k. cc) h

-- In every order of events, where the page begins with a name, each configuration that it sends has a
-- name that is not empty, whatever is typed in the title.
pub editor_run-IsNamed :
    (events : List EditorEvent) (e : Editor) → IsNamed e.page → IsNamed (editor_run e events).page
unfolding editor_run
editor_run-IsNamed [] e h = h
editor_run-IsNamed (event ∷ events) e h =
    editor_run-IsNamed events (editor_step e event) (editor_step-IsNamed e event h)
