-- ===== src/Control.antt =====
-- crates/openlv/src/session/control/mod.rs: task ownership, admission and shutdown. The lock makes
-- each method one step, a function of the state behind it.
pub mod Admission
mod Tests
use openlv_rs.Prelude.{
  ℕ, suc, ◌+◌, ◌-◌, Bool, true, false, not, List, [], ◌∷◌, ◌++◌, leb, ◌==◌, if◌then◌else◌, map,
}
use openlv_rs.Text.{Text, text}
use openlv_rs.Errors.{OpenLvError, session_closed, request_limit_reached, Result, ok, err, panic}

abbrev pub max_active_handlers : ℕ
max_active_handlers = 256

-- An abort is a request: the task is destroyed only when the runtime gets to it, and may run on
-- until its next await.
pub data TaskState : Type 0 where
  running abort_requested completed : TaskState

pub record Task : Type 0 where
  pub id : ℕ
  pub state : TaskState

-- `ControlState` with the `shutdown` channel; `next_id` names the tasks.
pub record SessionControl : Type 0 where
  pub closed : Bool
  pub active_handlers : ℕ
  pub tasks : List Task
  pub shutdown : Bool
  pub next_id : ℕ

unfoldable pub new : SessionControl
new = record { closed = false; active_handlers = 0; tasks = []; shutdown = false; next_id = 0 }

-- What `try_join_next` leaves in the set: the tasks that have not ended.
abbrev pub still_running : List Task → List Task
still_running [] = []
still_running (t ∷ tasks) = elim t.state [
  | TaskState.completed ↦ still_running tasks
  | _ ↦ t ∷ still_running tasks
]

-- A task ends, by itself or because its abort was requested; the set keeps it until it is joined.
abbrev pub ended : ℕ → Task → Task
ended id t = if t.id == id then record t { state = TaskState.completed } else t

unfoldable pub end_task : ℕ → SessionControl → SessionControl
end_task id s = record s { tasks = map (ended id) s.tasks }

-- `abort_all`
abbrev pub abort : Task → Task
abort t = elim t.state [
  | TaskState.running ↦ record t { state = TaskState.abort_requested }
  | _ ↦ t
]

unfoldable pub spawn : SessionControl → Result OpenLvError ℕ × SessionControl
spawn s = if s.closed then (err session_closed, s) else (
  ok s.next_id,
  record s {
    tasks = still_running s.tasks ++ record { id = s.next_id; state = TaskState.running } ∷ [];
    next_id = suc s.next_id;
  },
)

unfoldable pub close : SessionControl → SessionControl
close s =
    if s.closed then s else record s { closed = true; tasks = map abort s.tasks; shutdown = true }

-- Takes the tasks and returns when each has ended, by itself or because it was aborted.
unfoldable pub wait_for_tasks : SessionControl → SessionControl
wait_for_tasks s = record s { tasks = [] }

-- Whether `closed().await` returns without waiting.
unfoldable pub is_shut_down : SessionControl → Bool
is_shut_down s = s.shutdown

unfoldable pub admit_handler : SessionControl → Result OpenLvError (Unit {0}) × SessionControl
admit_handler s =
    if s.closed
    then (err session_closed, s)
    else if leb max_active_handlers s.active_handlers
    then (err request_limit_reached, s)
    else (ok tt, record s { active_handlers = s.active_handlers + 1 })

-- `HandlerPermit::drop`: the subtraction on `usize` panics at 0.
unfoldable pub drop_permit : SessionControl → Result OpenLvError (Unit {0}) × SessionControl
drop_permit s =
    if s.active_handlers == 0
    then (panic, s)
    else (ok tt, record s { active_handlers = s.active_handlers - 1 })

-- How the spawned operation of `run_operation` ends: its result was sent, it panicked, or its
-- task was destroyed before either.
pub data Ending (A : Type 0) : Type 0 where
  sent : Result OpenLvError A → Ending A
  panicked : Ending A
  destroyed : Ending A

abbrev pub outcome_of : {A : Type 0} → Ending A → Result OpenLvError A
outcome_of (sent result) = result
outcome_of panicked = panic
outcome_of destroyed = err session_closed

abbrev pub after_spawn :
    {A : Type 0}
    → Result OpenLvError ℕ × SessionControl
    → Ending A
    → Result OpenLvError A × SessionControl
after_spawn (ok id, s) ending = (outcome_of ending, s)
after_spawn (err e, s) ending = (err e, s)
after_spawn (panic, s) ending = (panic, s)

unfoldable pub run_operation :
    {A : Type 0} → SessionControl → Ending A → Result OpenLvError A × SessionControl
unfolding spawn
run_operation s ending = after_spawn (spawn s) ending
