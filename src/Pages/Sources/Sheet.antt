-- ===== src/Pages/Sources/Sheet.antt =====
-- GitSources.tsx: what the form sends, and what a late answer does to another form.
use otel_hive.Base.{◌≡◌, refl, false, Option, some, [], ◌∷◌, ◌++◌}
use otel_hive.Text.{Text, text}
use otel_hive.Editing.{message_or}
use otel_hive.Pages.Sources.{
  GitSource, CreateGitSourceRequest, empty_form, form_of, create_source, update_source, SourcesPage,
  open_create, open_edit, set_form, close_sheet, press_save, save_done, save_failed, sources_step,
  sources_run,
}

-- With no save under way, to open a source and save it unchanged sends back what it was opened with,
-- with no token and no secret, whatever the page showed before.
pub edit_unchanged :
    (s : SourcesPage) (gs : GitSource)
    → s.saving ≡ false
    → (sources_run s (open_edit gs ∷ press_save ∷ [])).sent
      ≡ s.sent ++ (update_source gs.id (form_of gs) ∷ [])
unfolding sources_run sources_step
edit_unchanged s gs idle = rw idle refl

-- With no save under way, a new source that is opened after another was edited and typed into starts
-- from the empty form: nothing of the other is sent.
pub create_after_edit :
    (s : SourcesPage) (gs : GitSource) (typed : CreateGitSourceRequest)
    → s.saving ≡ false
    → (sources_run s
        (open_edit gs ∷ set_form typed ∷ close_sheet ∷ open_create ∷ press_save ∷ [])).sent
      ≡ s.sent ++ (create_source empty_form ∷ [])
unfolding sources_run sources_step
create_after_edit s gs typed idle = rw idle refl

-- A save that is answered after its sheet was closed and another source was opened acts on the form of
-- that source: a success closes it, and a failure is shown in it.
pub late_answer :
    (s : SourcesPage) (gs : GitSource) (e : Option Text)
    → ((sources_run s (press_save ∷ close_sheet ∷ open_edit gs ∷ save_done ∷ [])).sheet_open
        ≡ false)
      × ((sources_run s (press_save ∷ close_sheet ∷ open_edit gs ∷ save_failed e ∷ [])).form_error
          ≡ some (message_or (text "Failed to save") e))
unfolding sources_run sources_step
late_answer s gs e = (refl, refl)
