-- ===== src/Pages/Groups.antt =====
-- ui/src/pages/Groups.tsx: the page of the groups. `mutate`, which fetches the list anew, is taken not
-- to throw, as SWR documents.
pub mod Counted
mod Tests
use otel_hive.Base.{Bool, true, false, Option, none, some, List, [], ◌∷◌, ◌++◌, if◌then◌else◌}
use otel_hive.Text.{Text, text}
use otel_hive.Agents.{Labels, Group}

pub record CreateGroupRequest : Type 0 where
  pub name : Text
  pub labels : Labels

pub data GroupRequest : Type 0 where
  create_group : CreateGroupRequest → GroupRequest
  delete_group : Text → GroupRequest

pub record GroupsPage : Type 0 where
  pub refreshing : Bool
  pub create_drawer_open : Bool
  pub delete_dialog_open : Bool
  pub selected_group : Option Group
  pub selected_group_id : Option Text
  pub group_drawer_open : Bool
  pub create_form : CreateGroupRequest
  pub sent : List GroupRequest

pub data GroupsEvent : Type 0 where
  press_refresh refreshed : GroupsEvent
  set_create_drawer : Bool → GroupsEvent
  type_name : Text → GroupsEvent
  press_create : GroupsEvent
  -- The server's answers; a failure is only logged.
  created create_failed : GroupsEvent
  click_group : Text → GroupsEvent
  click_delete : Group → GroupsEvent
  set_delete_dialog : Bool → GroupsEvent
  press_delete : GroupsEvent
  deleted delete_failed : GroupsEvent
  set_group_drawer : Bool → GroupsEvent

abbrev pub empty_form : CreateGroupRequest
empty_form = record { name = []; labels = [] }

-- `handleCreateGroup`, until the answer; the button is disabled while there is no name.
abbrev pub handle_create_group : (name : Text) → CreateGroupRequest → List GroupRequest
handle_create_group [] form = []
handle_create_group (c ∷ name) form = create_group form ∷ []

-- `handleDeleteGroup`, until the answer.
abbrev pub handle_delete_group : Option Group → List GroupRequest
handle_delete_group none = []
handle_delete_group (some g) = delete_group g.id ∷ []

unfoldable pub groups_step : GroupsPage → GroupsEvent → GroupsPage
groups_step s press_refresh = record s { refreshing = true }
groups_step s refreshed = record s { refreshing = false }
groups_step s (set_create_drawer shown) = record s { create_drawer_open = shown }
groups_step s (type_name name) = record s {
  create_form = record { name = name; labels = s.create_form.labels };
}
groups_step s press_create = record s {
  sent = s.sent ++ handle_create_group s.create_form.name s.create_form;
}
groups_step s created = record s { create_drawer_open = false; create_form = empty_form }
groups_step s create_failed = s
groups_step s (click_group id) = record s { selected_group_id = some id; group_drawer_open = true }
groups_step s (click_delete g) = record s { selected_group = some g; delete_dialog_open = true }
groups_step s (set_delete_dialog shown) = record s { delete_dialog_open = shown }
groups_step s press_delete = record s { sent = s.sent ++ handle_delete_group s.selected_group }
groups_step s deleted = record s { delete_dialog_open = false; selected_group = none }
groups_step s delete_failed = s
groups_step s (set_group_drawer shown) = record s { group_drawer_open = shown }

unfoldable pub groups_run : GroupsPage → List GroupsEvent → GroupsPage
unfolding groups_step
groups_run s [] = s
groups_run s (e ∷ es) = groups_run (groups_step s e) es

-- The page as it is mounted.
abbrev pub initial_page : GroupsPage
initial_page = record {
  refreshing = false;
  create_drawer_open = false;
  delete_dialog_open = false;
  selected_group = none;
  selected_group_id = none;
  group_drawer_open = false;
  create_form = empty_form;
  sent = [];
}
