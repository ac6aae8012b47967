-- ===== src/Pages/Keys/Private.antt =====
-- ApiKeys.tsx: when the key is kept.
use otel_hive.Base.{ℕ, ◌≡◌, refl, ◌⊎◌, inl, inr, true, false, ◌||◌, none, List, [], ◌∷◌, Bool-cases}
use otel_hive.Text.{Text}
use otel_hive.Editing.{is_blank}
use otel_hive.Pages.Keys.{
  KeysPage, KeysEvent, open_create, close_create, type_name, press_create, created, create_failed,
  press_revoke, revoke_ended, keys_step, keys_run, shows_key, dialog_view,
}

-- A key is kept only behind an open dialog, and a request is under way only behind one.
pub record IsPrivate (s : KeysPage) : Type 0 where
  pub key : (s.create_open ≡ true) ⊎ (s.new_plaintext_key ≡ none)
  pub request : (s.create_open ≡ true) ⊎ (s.creating ≡ false)

-- What happens in an orderly session: a request is started in the open dialog and answered while it is
-- under way, and the dialog is not closed meanwhile.
abbrev pub Orderly : KeysPage → KeysEvent → Type 0
Orderly s close_create = s.creating ≡ false
Orderly s press_create = s.create_open ≡ true
Orderly s (created key) = s.creating ≡ true
Orderly s (create_failed e) = s.creating ≡ true
Orderly s _ = Unit

abbrev pub AllOrderly : KeysPage → List KeysEvent → Type 0
AllOrderly s [] = Unit
AllOrderly s (e ∷ es) = Orderly s e × AllOrderly (keys_step s e) es

under_way : (s : KeysPage) → IsPrivate s → s.creating ≡ true → s.create_open ≡ true
under_way s h busy = elim h.request [ inl e ↦ e | inr e ↦ cc ]

keys_step-IsPrivate :
    (s : KeysPage) (e : KeysEvent) → IsPrivate s → Orderly s e → IsPrivate (keys_step s e)
unfolding keys_step
keys_step-IsPrivate s open_create h o = record { key = inl refl; request = inl refl }
keys_step-IsPrivate s close_create h o = record { key = inr refl; request = inr o }
keys_step-IsPrivate s (type_name name) h o = record { key = h.key; request = h.request }
keys_step-IsPrivate s press_create h o = elim (Bool-cases (s.creating || is_blank s.new_key_name)) [
  | inl e ↦ rw e h
  | inr e ↦ rw e (record { key = h.key; request = inl o })
]
keys_step-IsPrivate s (created key) h o = record { key = inl (under_way s h o); request = inr refl }
keys_step-IsPrivate s (create_failed e) h o = record { key = h.key; request = inr refl }
keys_step-IsPrivate s (press_revoke id) h o = record { key = h.key; request = h.request }
keys_step-IsPrivate s revoke_ended h o = record { key = h.key; request = h.request }

-- In every session in which requests are started in the open dialog and answered once, and the dialog
-- is not closed while one is under way, the key that was created is kept only while the dialog is open,
-- when this holds at first.
pub keys_run-IsPrivate :
    (s : KeysPage) (es : List KeysEvent) → IsPrivate s → AllOrderly s es → IsPrivate (keys_run s es)
unfolding keys_run
keys_run-IsPrivate s [] h o = h
keys_run-IsPrivate s (e ∷ es) h (now, later) =
    keys_run-IsPrivate (keys_step s e) es (keys_step-IsPrivate s e h now) later

-- A dialog that is closed while its request is under way, and opened again after the answer, shows the
-- key of that request in place of its form.
pub late_key :
    (s : KeysPage) (name : Text) (c : ℕ) (key : Text)
    → dialog_view (
        keys_run s (
          open_create
          ∷ type_name name
          ∷ press_create
          ∷ close_create
          ∷ created (c ∷ key)
          ∷ open_create
          ∷ []))
      ≡ shows_key (c ∷ key)
unfolding keys_run keys_step
late_key s name c key = refl
