-- ===== src/Pages/Keys.antt =====
-- ui/src/pages/ApiKeys.tsx: the dialog that creates an API key and shows it once.
pub mod Private
use otel_hive.Base.{Bool, true, false, ◌||◌, Option, none, some, List, [], ◌∷◌, ◌++◌, if◌then◌else◌}
use otel_hive.Text.{Text, text, trim}
use otel_hive.Editing.{message_or, is_blank}

pub data KeyRequest : Type 0 where
  create_key : Text → KeyRequest
  revoke_key : Text → KeyRequest

pub record KeysPage : Type 0 where
  pub create_open : Bool
  pub new_key_name : Text
  pub creating : Bool
  pub create_error : Option Text
  pub new_plaintext_key : Option Text
  pub revoking_id : Option Text
  pub sent : List KeyRequest

pub data KeysEvent : Type 0 where
  open_create close_create : KeysEvent
  type_name : Text → KeysEvent
  press_create : KeysEvent
  -- The server's answers.
  created : Text → KeysEvent
  create_failed : Option Text → KeysEvent
  press_revoke : Text → KeysEvent
  revoke_ended : KeysEvent

-- The button is disabled while a request is under way; a blank name is refused.
unfoldable pub keys_step : KeysPage → KeysEvent → KeysPage
unfolding trim
keys_step s open_create = record s { create_open = true }
keys_step s close_create = record s {
  create_open = false;
  new_key_name = [];
  create_error = none;
  new_plaintext_key = none;
}
keys_step s (type_name name) = record s { new_key_name = name }
keys_step s press_create = if s.creating || is_blank s.new_key_name then s else (record s {
  creating = true;
  create_error = none;
  sent = s.sent ++ (create_key (trim s.new_key_name) ∷ []);
})
keys_step s (created key) = record s {
  new_plaintext_key = some key;
  new_key_name = [];
  creating = false;
}
keys_step s (create_failed e) = record s {
  create_error = some (message_or (text "Failed to create API key.") e);
  creating = false;
}
keys_step s (press_revoke id) = record s {
  revoking_id = some id;
  sent = s.sent ++ (revoke_key id ∷ []);
}
keys_step s revoke_ended = record s { revoking_id = none }

unfoldable pub keys_run : KeysPage → List KeysEvent → KeysPage
unfolding keys_step
keys_run s [] = s
keys_run s (e ∷ es) = keys_run (keys_step s e) es

-- What the dialog shows, where it is open: the key, or the form.
pub data DialogView : Type 0 where
  closed form : DialogView
  shows_key : Text → DialogView

abbrev pub opened_view : Option Text → DialogView
opened_view none = form
opened_view (some []) = form
opened_view (some (c ∷ key)) = shows_key (c ∷ key)

abbrev pub dialog_view : KeysPage → DialogView
dialog_view s = if s.create_open then opened_view s.new_plaintext_key else closed
