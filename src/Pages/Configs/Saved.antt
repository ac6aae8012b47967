-- ===== src/Pages/Configs/Saved.antt =====
-- Configs.tsx: what the save button sends.
use otel_hive.Base.{
  ℕ, ◌+◌, ◌≡◌, refl, sym, subst, false, Option, none, some, List, [], ◌∷◌, ◌++◌, not, ◌||◌, All,
  All-append, Bool-cases, inl, inr,
}
use otel_hive.Text.{Text, text}
use otel_hive.Pages.Configs.{
  Config, PageMode, list_mode, create_mode, edit_mode, Request, update_config, create_config,
  ConfigsPage, or_text, load_editor, save_request, ConfigsEvent, shows, type_content, rename,
  choose_group, open_versions, load_version, press_save, saved, save_failed, can_save, configs_step,
  configs_run,
}

-- With no save under way and a configuration that has a group, to open it, change its text and save
-- sends one update, of that configuration, with the new text, its name and the next version.
pub edit_save :
    (s : ConfigsPage) (config : Config) (c : ℕ) (group content : Text)
    → s.is_saving ≡ false
    → config.group_id ≡ some (c ∷ group)
    → (configs_run s (shows edit_mode (some config) ∷ type_content content ∷ press_save ∷ [])).sent
      ≡ s.sent
        ++ (update_config config.id
              (or_text config.name (text "New Config"))
              content
              (config.version + 1)
            ∷ [])
unfolding configs_run configs_step load_editor save_request
edit_save s config c group content idle grouped = rw (grouped, idle) refl

-- With no save under way, where an address is opened to edit a configuration that is not fetched yet
-- and a group is chosen, the save button sends a new configuration with whatever text the editor
-- holds.
pub unloaded_save :
    (s : ConfigsPage) (c : ℕ) (group : Text)
    → s.is_saving ≡ false
    → (configs_run s (shows edit_mode none ∷ choose_group (c ∷ group) ∷ press_save ∷ [])).sent
      ≡ s.sent ++ (create_config s.config_name (some (c ∷ group)) s.editor_content 1 ∷ [])
unfolding configs_run configs_step load_editor save_request
unloaded_save s c group idle = rw idle refl

-- A group chosen for a configuration that is edited is not sent: the request is the same with any
-- other group.
pub group_not_sent :
    (s : ConfigsPage) (config : Config) (c d : ℕ) (group other : Text)
    → (configs_run s
        (shows edit_mode (some config) ∷ choose_group (c ∷ group) ∷ press_save ∷ [])).sent
      ≡ (configs_run s
          (shows edit_mode (some config) ∷ choose_group (d ∷ other) ∷ press_save ∷ [])).sent
unfolding configs_run configs_step load_editor save_request
group_not_sent s config c d group other = elim (Bool-cases s.is_saving) [
  | inl e ↦ rw e refl
  | inr e ↦ rw e refl
]

module _ (Fetched : Config → Type 0) where
  -- What is known of the configuration that is shown, where there is one.
  abbrev pub OfFetched : Option Config → Type 0
  OfFetched none = Unit
  OfFetched (some config) = Fetched config

  abbrev pub ShowsFetched : List ConfigsEvent → Type 0
  ShowsFetched [] = Unit
  ShowsFetched (shows mode current ∷ es) = OfFetched current × ShowsFetched es
  ShowsFetched (e ∷ es) = ShowsFetched es

  -- An update is of a configuration that was fetched and has its next version; a creation has the
  -- first.
  abbrev pub IsNext : Request → Type 0
  IsNext (update_config id name content version) =
      (config : Config) × Fetched config × (id ≡ config.id) × (version ≡ config.version + 1)
  IsNext (create_config name group_id content version) = version ≡ 1

  save_request-IsNext :
      (mode : PageMode) (current : Option Config) (s : ConfigsPage)
      → OfFetched current
      → IsNext (save_request mode current s)
  unfolding save_request
  save_request-IsNext edit_mode (some config) s h = (config, h, refl, refl)
  save_request-IsNext edit_mode none s h = refl
  save_request-IsNext list_mode (some config) s h = refl
  save_request-IsNext list_mode none s h = refl
  save_request-IsNext create_mode (some config) s h = refl
  save_request-IsNext create_mode none s h = refl

  load_editor-rest :
      (mode : PageMode) (current : Option Config) (s : ConfigsPage)
      → let t = load_editor mode current s in (t.sent ≡ s.sent) × (t.current ≡ s.current)
  unfolding load_editor
  load_editor-rest edit_mode (some config) s = (refl, refl)
  load_editor-rest edit_mode none s = (refl, refl)
  load_editor-rest create_mode current s = (refl, refl)
  load_editor-rest list_mode current s = (refl, refl)

  abbrev IsGood : ConfigsPage → Type 0
  IsGood s = OfFetched s.current × All IsNext s.sent

  press_save-IsGood : (s : ConfigsPage) → IsGood s → IsGood (configs_step s press_save)
  unfolding configs_step
  press_save-IsGood s h = elim (Bool-cases (s.is_saving || not (can_save s.selected_group_id))) [
    | inl e ↦ rw e h
    | inr e ↦ rw e (
      h.0,
      All-append IsNext s.sent (save_request s.mode s.current s ∷ []) h.1
          (save_request-IsNext s.mode s.current s h.0, tt),
    )
  ]

  -- In every order of events, where the configurations that are shown are fetched ones, each update that
  -- is sent is of a fetched configuration and has its next version, and each creation has version 1,
  -- when this holds of the requests sent before.
  pub configs_run-IsNext :
      (s : ConfigsPage) (es : List ConfigsEvent)
      → OfFetched s.current
      → All IsNext s.sent
      → ShowsFetched es
      → All IsNext (configs_run s es).sent
  unfolding configs_run configs_step
  configs_run-IsNext s [] c h k = h
  configs_run-IsNext s (shows mode current ∷ es) c h (fetched, k) =
      let t : ConfigsPage = record s { mode = mode; current = current } in
      let (same, kept) = load_editor-rest mode current t in
      configs_run-IsNext (configs_step s (shows mode current)) es
        (subst OfFetched (sym kept) fetched) (subst (All IsNext) (sym same) h) k
  configs_run-IsNext s (type_content content ∷ es) c h k =
      configs_run-IsNext (configs_step s (type_content content)) es c h k
  configs_run-IsNext s (rename name ∷ es) c h k =
      configs_run-IsNext (configs_step s (rename name)) es c h k
  configs_run-IsNext s (choose_group id ∷ es) c h k =
      configs_run-IsNext (configs_step s (choose_group id)) es c h k
  configs_run-IsNext s (open_versions ∷ es) c h k =
      configs_run-IsNext (configs_step s open_versions) es c h k
  configs_run-IsNext s (load_version config ∷ es) c h k =
      configs_run-IsNext (configs_step s (load_version config)) es c h k
  configs_run-IsNext s (press_save ∷ es) c h k =
      let (d, g) = press_save-IsGood s (c, h) in
      configs_run-IsNext (configs_step s press_save) es d g k
  configs_run-IsNext s (saved ∷ es) c h k = configs_run-IsNext (configs_step s saved) es c h k
  configs_run-IsNext s (save_failed ∷ es) c h k =
      configs_run-IsNext (configs_step s save_failed) es c h k
