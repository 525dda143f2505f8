-- ===== src/Events.antt =====
-- rm/librmcommon/events: the classes of events, with what their readers use of them. An event of the
-- kernel holds the bytes of its proc_event, here the pids in it.
use Prim.Native.String.{String}
use konro.Base.{ℕ, List}
use konro.Base.Int.{ℤ}
use konro.App.{App}
use konro.Float.{Float}
use konro.PolicyManager.{SecurityFactors}

pub data EventType : Type 0 where
  fork_type exec_type exit_type : EventType
  add_request_type feedback_request_type clear_type : EventType
  add_type remove_type feedback_type : EventType
  timer_type monitor_type security_type : EventType

-- std::type_index
unfoldable pub type_index : EventType → ℕ
type_index fork_type = 0
type_index exec_type = 1
type_index exit_type = 2
type_index add_request_type = 3
type_index feedback_request_type = 4
type_index clear_type = 5
type_index add_type = 6
type_index remove_type = 7
type_index feedback_type = 8
type_index timer_type = 9
type_index monitor_type = 10
type_index security_type = 11

module _ (fl : Float) where
  pub data BaseEvent : Type 0 where
    fork_event : ℤ → ℤ → BaseEvent
    exec_event : ℤ → BaseEvent
    exit_event : ℤ → BaseEvent
    add_request_event : App → BaseEvent
    feedback_request_event : ℤ → ℕ → ℤ → BaseEvent
    clear_event : ℤ → BaseEvent
    add_event : App → BaseEvent
    remove_event : App → BaseEvent
    feedback_event : App → ℤ → BaseEvent
    timer_event : BaseEvent
    monitor_event : List ℤ → BaseEvent
    security_event : App → fl.F → SecurityFactors fl → String → BaseEvent

  unfoldable pub type_of : BaseEvent → EventType
  type_of (fork_event parent child) = fork_type
  type_of (exec_event pid) = exec_type
  type_of (exit_event pid) = exit_type
  type_of (add_request_event app) = add_request_type
  type_of (feedback_request_event pid ns feedback) = feedback_request_type
  type_of (clear_event pid) = clear_type
  type_of (add_event app) = add_type
  type_of (remove_event app) = remove_type
  type_of (feedback_event app feedback) = feedback_type
  type_of timer_event = timer_type
  type_of (monitor_event load) = monitor_type
  type_of (security_event app sai factors labels) = security_type
