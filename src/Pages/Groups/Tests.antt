-- ===== src/Pages/Groups/Tests.antt =====
-- Runs of the page of the groups, and an instance of the theorem on it.
use otel_hive.Base.{◌≡◌, refl, none, List, [], ◌∷◌}
use otel_hive.Text.{Text, text}
use otel_hive.Agents.{Group}
use otel_hive.Pages.Groups.{
  GroupRequest, create_group, GroupsEvent, type_name, press_create, created, click_delete,
  press_delete, deleted, groups_run, initial_page,
}
use otel_hive.Pages.Groups.Counted.{IsUnlabelled, groups_run-IsUnlabelled}

abbrev named : GroupRequest
named = create_group (record { name = text "web"; labels = [] })

-- The button is not disabled while the request is under way.
asked_twice :
    (groups_run initial_page (type_name (text "web") ∷ press_create ∷ press_create ∷ [])).sent
    ≡ named ∷ named ∷ []
unfolding groups_run
asked_twice = refl

abbrev a_group : Text → Group
a_group id = record { id = id; name = id; labels = none }

-- The answer for one group closes the dialog of the next.
late_answer :
    (groups_run initial_page (
      click_delete (a_group (text "a"))
      ∷ press_delete
      ∷ click_delete (a_group (text "b"))
      ∷ deleted
      ∷ [])).selected_group
    ≡ none
unfolding groups_run
late_answer = refl

abbrev events : List GroupsEvent
events = type_name (text "web") ∷ press_create ∷ created ∷ []

groups_run-IsUnlabelled_example : IsUnlabelled (groups_run initial_page events)
groups_run-IsUnlabelled_example =
    groups_run-IsUnlabelled events initial_page (record { form = refl; requests = tt })
