-- ===== src/KonroManager/Wiring.antt =====
-- The subscriptions that the constructors make as rm/src/konromanager.cpp creates the parts, and what a
-- published event does: the subscribeToEvents of rm/policymanager/policymanager.cpp and
-- rm/workloadmanager/workloadmanager.cpp and the constructor of
-- rm/securitymonitor/securitymonitor.cpp, on the bus of rm/librmcommon/eventbus.h.
pub mod Routing
pub mod Relay
use konro.Base.{Bool, List, [], ◌∷◌, ◌++◌, if◌then◌else◌}
use konro.Base.Int.{ℤ, pos, ltb_ℤ}
use konro.App.{App}
use konro.EventBus.{Bus, Use, subscribes, after, publish}
use konro.Events.{
  BaseEvent, type_of, type_index, fork_type, exec_type, exit_type, add_request_type,
  feedback_request_type, clear_type, add_type, remove_type, feedback_type, timer_type, monitor_type,
  security_type,
}
use konro.Events
use konro.Float.{Float}
use konro.PolicyManager
use konro.PolicyManager.{Event}
use konro.Queue
use konro.WorkloadManager
use konro.WorkloadManager.{Received}

-- The member functions that are subscribed, each of the one object of its class.
pub data Handler : Type 0 where
  policy_manager_add_event : Handler
  workload_manager_add_event : Handler
  security_monitor_add_event : Handler
  security_monitor_remove_event : Handler

-- PolicyManager::subscribeToEvents
unfoldable pub policy_manager_subscriptions : List (Use Handler)
policy_manager_subscriptions =
    subscribes (type_index add_type) policy_manager_add_event
    ∷ subscribes (type_index remove_type) policy_manager_add_event
    ∷ subscribes (type_index timer_type) policy_manager_add_event
    ∷ subscribes (type_index feedback_type) policy_manager_add_event
    ∷ subscribes (type_index monitor_type) policy_manager_add_event
    ∷ subscribes (type_index security_type) policy_manager_add_event
    ∷ subscribes (type_index clear_type) policy_manager_add_event
    ∷ []

-- WorkloadManager::subscribeToEvents
unfoldable pub workload_manager_subscriptions : List (Use Handler)
workload_manager_subscriptions =
    subscribes (type_index fork_type) workload_manager_add_event
    ∷ subscribes (type_index exec_type) workload_manager_add_event
    ∷ subscribes (type_index exit_type) workload_manager_add_event
    ∷ subscribes (type_index add_request_type) workload_manager_add_event
    ∷ subscribes (type_index feedback_request_type) workload_manager_add_event
    ∷ []

-- The constructor of SecurityMonitor.
unfoldable pub security_monitor_subscriptions : List (Use Handler)
security_monitor_subscriptions =
    subscribes (type_index add_type) security_monitor_add_event
    ∷ subscribes (type_index remove_type) security_monitor_remove_event
    ∷ []

-- In the order of KonroManager::run, with the security monitor if its period is above 0.
unfoldable pub subscriptions : ℤ → List (Use Handler)
unfolding policy_manager_subscriptions workload_manager_subscriptions security_monitor_subscriptions
subscriptions security_period =
    policy_manager_subscriptions
    ++ (workload_manager_subscriptions
        ++ (if ltb_ℤ (pos 0) security_period then security_monitor_subscriptions else []))

module _ (fl : Float) where
  -- The dynamic casts of PolicyManager::processEvent.
  unfoldable pub cast_for_policy : BaseEvent fl → Event fl
  cast_for_policy (Events.add_event app) = PolicyManager.add_event app
  cast_for_policy (Events.remove_event app) = PolicyManager.remove_event app
  cast_for_policy Events.timer_event = PolicyManager.timer_event
  cast_for_policy (Events.monitor_event load) = PolicyManager.monitor_event load
  cast_for_policy (Events.feedback_event app n) = PolicyManager.feedback_event app n
  cast_for_policy (Events.security_event app sai factors labels) =
      PolicyManager.security_event app sai factors labels
  cast_for_policy (Events.clear_event pid) = PolicyManager.clear_event pid
  cast_for_policy (Events.fork_event parent child) = PolicyManager.other_event
  cast_for_policy (Events.exec_event pid) = PolicyManager.other_event
  cast_for_policy (Events.exit_event pid) = PolicyManager.other_event
  cast_for_policy (Events.add_request_event app) = PolicyManager.other_event
  cast_for_policy (Events.feedback_request_event pid ns n) = PolicyManager.other_event

  -- The dynamic casts of WorkloadManager::processEvent.
  unfoldable pub cast_for_workload : BaseEvent fl → Received
  cast_for_workload (Events.fork_event parent child) = WorkloadManager.fork parent child
  cast_for_workload (Events.exec_event pid) = WorkloadManager.exec pid
  cast_for_workload (Events.exit_event pid) = WorkloadManager.exit pid
  cast_for_workload (Events.add_request_event app) = WorkloadManager.add_request app
  cast_for_workload (Events.feedback_request_event pid ns n) =
      WorkloadManager.feedback_request pid ns n
  cast_for_workload (Events.clear_event pid) = WorkloadManager.other_event
  cast_for_workload (Events.add_event app) = WorkloadManager.other_event
  cast_for_workload (Events.remove_event app) = WorkloadManager.other_event
  cast_for_workload (Events.feedback_event app n) = WorkloadManager.other_event
  cast_for_workload Events.timer_event = WorkloadManager.other_event
  cast_for_workload (Events.monitor_event load) = WorkloadManager.other_event
  cast_for_workload (Events.security_event app sai factors labels) = WorkloadManager.other_event

  -- What the handlers change: the queues of the managers, and the calls that the security monitor gets.
  pub data Told : Type 0 where
    of_add : App → Told
    of_remove : App → Told

  pub record Inboxes : Type 0 where
    pub policy : List (Event fl)
    pub workload : List Received
    pub security : List Told

  -- An event of another class than the handler's parameter does not reach it.
  unfoldable pub exec : Handler → BaseEvent fl → Inboxes → Inboxes
  unfolding cast_for_policy cast_for_workload Queue.push
  exec policy_manager_add_event e i = record i { policy = Queue.push (cast_for_policy e) i.policy }
  exec workload_manager_add_event e i = record i {
    workload = Queue.push (cast_for_workload e) i.workload;
  }
  exec security_monitor_add_event (Events.add_event app) i = record i {
    security = i.security ++ of_add app ∷ [];
  }
  exec security_monitor_add_event e i = i
  exec security_monitor_remove_event (Events.remove_event app) i = record i {
    security = i.security ++ of_remove app ∷ [];
  }
  exec security_monitor_remove_event e i = i

  -- The loop of `publish` over the handlers.
  unfoldable pub exec_all : List Handler → BaseEvent fl → Inboxes → Inboxes
  unfolding exec
  exec_all [] e i = i
  exec_all (h ∷ hs) e i = exec_all hs e (exec h e i)

  unfoldable pub send : BaseEvent fl → Bus Handler → Inboxes → Inboxes × Bus Handler
  unfolding exec_all publish
  send e bus i = let r = publish (type_index (type_of fl e)) bus in (exec_all r.0 e i, r.1)
