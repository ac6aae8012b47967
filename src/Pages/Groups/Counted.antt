-- ===== src/Pages/Groups/Counted.antt =====
-- Groups.tsx with DisplaySidebar.tsx: the groups that the page creates.
use otel_hive.Base.{
  ◌≡◌, ◌≢◌, refl, ap, true, Option, none, some, List, [], ◌∷◌, length, keep, All, All-append,
}
use otel_hive.Text.{Text}
use otel_hive.Agents.{Agent, Group, matches, group_agent_count}
use otel_hive.Pages.Groups.{
  CreateGroupRequest, GroupRequest, create_group, delete_group, GroupsPage, GroupsEvent,
  press_refresh, refreshed, set_create_drawer, type_name, press_create, created, create_failed,
  click_group, click_delete, set_delete_dialog, press_delete, deleted, delete_failed,
  set_group_drawer, handle_create_group, handle_delete_group, groups_step, groups_run,
}

-- The group that the server makes of a request, whatever id it gives it.
abbrev pub made : Text → CreateGroupRequest → Group
made id req = record { id = id; name = req.name; labels = some req.labels }

-- Every agent is counted for a group that was created; nothing is said of a deletion.
abbrev pub CountsAll : GroupRequest → Type 0
CountsAll (create_group req) =
    (req.name ≢ [])
    × ((id : Text) (agents : List Agent) → group_agent_count agents (made id req) ≡ length agents)
CountsAll (delete_group id) = Unit

keep-all : (agents : List Agent) → keep (λ (a : Agent). true) agents ≡ agents
keep-all [] = refl
keep-all (a ∷ agents) = ap (◌∷◌ a) (keep-all agents)

unlabelled-CountsAll :
    (req : CreateGroupRequest) → req.name ≢ [] → req.labels ≡ [] → CountsAll (create_group req)
unfolding group_agent_count matches
unlabelled-CountsAll req named e = (named, λ id agents. rw e (ap length (keep-all agents)))

-- The form has no labels, and so no request has any.
pub record IsUnlabelled (s : GroupsPage) : Type 0 where
  pub form : s.create_form.labels ≡ []
  pub requests : All CountsAll s.sent

handle_create_group-CountsAll :
    (name : Text) (form : CreateGroupRequest)
    → form.name ≡ name
    → form.labels ≡ []
    → All CountsAll (handle_create_group name form)
handle_create_group-CountsAll [] form n e = tt
handle_create_group-CountsAll (c ∷ name) form n e = (unlabelled-CountsAll form (λ k. cc) e, tt)

handle_delete_group-CountsAll : (g : Option Group) → All CountsAll (handle_delete_group g)
handle_delete_group-CountsAll none = tt
handle_delete_group-CountsAll (some g) = (tt, tt)

groups_step-IsUnlabelled :
    (s : GroupsPage) (e : GroupsEvent) → IsUnlabelled s → IsUnlabelled (groups_step s e)
unfolding groups_step
groups_step-IsUnlabelled s press_refresh h = record { form = h.form; requests = h.requests }
groups_step-IsUnlabelled s refreshed h = record { form = h.form; requests = h.requests }
groups_step-IsUnlabelled s (set_create_drawer b) h = record { form = h.form; requests = h.requests }
groups_step-IsUnlabelled s (type_name name) h = record { form = h.form; requests = h.requests }
groups_step-IsUnlabelled s press_create h = record {
  form = h.form;
  requests =
      All-append CountsAll s.sent (handle_create_group s.create_form.name s.create_form) h.requests
        (handle_create_group-CountsAll s.create_form.name s.create_form refl h.form);
}
groups_step-IsUnlabelled s created h = record { form = refl; requests = h.requests }
groups_step-IsUnlabelled s create_failed h = h
groups_step-IsUnlabelled s (click_group id) h = record { form = h.form; requests = h.requests }
groups_step-IsUnlabelled s (click_delete g) h = record { form = h.form; requests = h.requests }
groups_step-IsUnlabelled s (set_delete_dialog b) h = record { form = h.form; requests = h.requests }
groups_step-IsUnlabelled s press_delete h = record {
  form = h.form;
  requests =
      All-append CountsAll s.sent (handle_delete_group s.selected_group) h.requests
        (handle_delete_group-CountsAll s.selected_group);
}
groups_step-IsUnlabelled s deleted h = record { form = h.form; requests = h.requests }
groups_step-IsUnlabelled s delete_failed h = h
groups_step-IsUnlabelled s (set_group_drawer b) h = record { form = h.form; requests = h.requests }

-- In every order of events, each group that the page asks for has a name, and where the server makes
-- it as it is asked for, the sidebar of the topology counts every agent for it.
pub groups_run-IsUnlabelled :
    (es : List GroupsEvent) (s : GroupsPage) → IsUnlabelled s → IsUnlabelled (groups_run s es)
unfolding groups_run
groups_run-IsUnlabelled [] s h = h
groups_run-IsUnlabelled (e ∷ es) s h =
    groups_run-IsUnlabelled es (groups_step s e) (groups_step-IsUnlabelled s e h)
