-- ===== src/Details.antt =====
-- ui/src/components/AgentDetailsDrawer.tsx and GroupDetailsDrawer.tsx: the drawers with the details
-- of an agent or of a group, and the restarts that they ask for. What SWR has fetched for the drawer
-- comes with an event, and so do the answers of the server and the ends of the timers.
pub mod Settled
pub mod Overview
mod Tests
use otel_hive.Base.{
  ℕ, zero, suc, ◌+◌, Bool, true, false, not, ◌&&◌, ◌||◌, Option, none, some, List, [], ◌∷◌, ◌++◌,
  if◌then◌else◌, ltb,
}
use otel_hive.Text.{Text, text, text_eq, truthy, decimal}
use otel_hive.Editing.{message_or}
use otel_hive.Agents.{AgentStatus, is_online}
use otel_hive.Clients.{TopologyCall, get_agent_topology, get_group_topology}

pub data MessageType : Type 0 where
  success failure : MessageType

pub record RestartMessage : Type 0 where
  pub type : MessageType
  pub text_ : Text

-- `RestartGroupResponse`; the answer for an agent has no counts.
pub record RestartResponse : Type 0 where
  pub success_ : Bool
  pub message : Text
  pub restarted_count : ℕ
  pub failed_count : ℕ

-- A drawer for what is fetched of type `V`. `pending` counts the restarts that are not answered yet,
-- and `timers` those timers that still run.
pub record Drawer (V : Type 0) : Type 0 where
  pub id : Option Text
  pub is_open : Bool
  pub shown : Option V
  pub is_restarting : Bool
  pub restart_message : Option RestartMessage
  pub pending : ℕ
  pub timers : ℕ
  pub sent : List Text

pub data DrawerEvent (V : Type 0) : Type 0 where
  -- The page hands over another id, or opens or closes the drawer, for which SWR has this.
  given : Option Text → Bool → Option V → DrawerEvent V
  fetched : Option V → DrawerEvent V
  press_restart : DrawerEvent V
  restarted : RestartResponse → DrawerEvent V
  restart_failed : Option Text → DrawerEvent V
  timer_ends : DrawerEvent V

pub data AgentState : Type 0 where
  agent_state : AgentStatus → Option (List Text) → AgentState

pub data GroupState : Type 0 where
  group_state : (name : Option Text) (agent_count : Option ℕ) → GroupState

pub has_capability : List Text → Bool
unfolding text_eq
has_capability [] = false
has_capability (c ∷ cs) = text_eq c (text "accepts_restart_command") || has_capability cs

-- `agent?.capabilities?.includes(…) ?? false`
pub supports_restart : Option (List Text) → Bool
unfolding has_capability
supports_restart none = false
supports_restart (some capabilities) = has_capability capabilities

-- Where the button is there, and is not disabled for another reason than a restart.
unfoldable pub can_restart_agent : Option AgentState → Bool
unfolding supports_restart
can_restart_agent none = false
can_restart_agent (some (agent_state status capabilities)) =
    supports_restart capabilities && is_online status

unfoldable pub can_restart_group : Option GroupState → Bool
can_restart_group none = false
can_restart_group (some (group_state (some name) (some agent_count))) = ltb 0 agent_count
can_restart_group (some _) = false

abbrev pub agent_summary : RestartResponse → Text
agent_summary r = r.message

unfoldable pub group_summary : RestartResponse → Text
unfolding decimal
group_summary r =
    r.message
    ++ text " ("
    ++ decimal r.restarted_count
    ++ text " restarted, "
    ++ decimal r.failed_count
    ++ text " failed)"

module _ {V : Type 0} where
  -- `handleRestart`, until it waits for the answer.
  unfoldable pub handle_restart : Option Text → Drawer V → Drawer V
  handle_restart none s = s
  handle_restart (some id) s = record s {
    is_restarting = true;
    restart_message = none;
    pending = s.pending + 1;
    sent = s.sent ++ (id ∷ []);
  }

  -- One restart that is waited for has ended, with a message and perhaps with a timer.
  unfoldable pub ended : RestartMessage → (new_timers : ℕ) → ℕ → Drawer V → Drawer V
  ended m new_timers zero s = s
  ended m new_timers (suc pending) s = record s {
    is_restarting = false;
    restart_message = some m;
    pending = pending;
    timers = s.timers + new_timers;
  }

  -- A message that a success leaves is cleared by its timer.
  unfoldable pub timer_end : ℕ → Drawer V → Drawer V
  timer_end zero s = s
  timer_end (suc timers) s = record s { restart_message = none; timers = timers }

module _ {V : Type 0} (can_restart : Option V → Bool) (summary : RestartResponse → Text)
    (fallback : Text) where
  unfoldable pub drawer_step : Drawer V → DrawerEvent V → Drawer V
  unfolding handle_restart ended timer_end
  drawer_step s (given id is_open shown) = record s { id = id; is_open = is_open; shown = shown }
  drawer_step s (fetched shown) = record s { shown = shown }
  drawer_step s press_restart =
      if can_restart s.shown && not s.is_restarting then handle_restart (truthy s.id) s else s
  drawer_step s (restarted r) =
      if r.success_
      then ended (record { type = success; text_ = summary r }) 1 s.pending s
      else ended (record { type = failure; text_ = r.message }) 0 s.pending s
  drawer_step s (restart_failed e) =
      ended (record { type = failure; text_ = message_or fallback e }) 0 s.pending s
  drawer_step s timer_ends = timer_end s.timers s

  unfoldable pub drawer_run : Drawer V → List (DrawerEvent V) → Drawer V
  unfolding drawer_step
  drawer_run s [] = s
  drawer_run s (e ∷ es) = drawer_run (drawer_step s e) es

unfoldable pub agent_run : Drawer AgentState → List (DrawerEvent AgentState) → Drawer AgentState
unfolding drawer_run can_restart_agent
agent_run = drawer_run can_restart_agent agent_summary (text "Failed to restart agent")

unfoldable pub group_run : Drawer GroupState → List (DrawerEvent GroupState) → Drawer GroupState
unfolding drawer_run can_restart_group group_summary
group_run = drawer_run can_restart_group group_summary (text "Failed to restart group")

-- What a closed drawer that was just mounted holds.
abbrev pub mounted : {V : Type 0} → Drawer V
mounted = record {
  id = none;
  is_open = false;
  shown = none;
  is_restarting = false;
  restart_message = none;
  pending = 0;
  timers = 0;
  sent = [];
}

-- What is fetched, with `none` where SWR is given no key.
abbrev pub details : {C : Type 0} → (Text → C) → Option Text → Bool → Option C
details call none is_open = none
details call (some id) false = none
details call (some id) true = some (call id)

unfoldable pub agent_details : Option Text → Bool → Option TopologyCall
agent_details agent_id is_open = details get_agent_topology (truthy agent_id) is_open

unfoldable pub group_details : Option Text → Bool → Option TopologyCall
group_details group_id is_open = details get_group_topology (truthy group_id) is_open
