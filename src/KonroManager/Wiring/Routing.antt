-- ===== src/KonroManager/Wiring/Routing.antt =====
-- Where a published event arrives.
use konro.Base.{
  ℕ, ◌≡◌, refl, Bool, true, false, List, [], ◌∷◌, ◌++◌, append-nil, map, arith, if◌then◌else◌,
}
use konro.Base.Int.{ℤ, pos, ltb_ℤ}
use konro.EventBus
use konro.EventBus.{Use, publishes, after, publish, subscribers_of, publish-after}
use konro.Events.{EventType, BaseEvent, type_of, type_index}
use konro.Events
use konro.Float.{Float}
use konro.KonroManager.Wiring.{
  Handler, policy_manager_subscriptions, workload_manager_subscriptions,
  security_monitor_subscriptions, subscriptions, cast_for_policy, cast_for_workload, Told, of_add,
  of_remove, Inboxes, exec, exec_all, send,
}
use konro.PolicyManager
use konro.PolicyManager.{Event}
use konro.Queue
use konro.WorkloadManager
use konro.WorkloadManager.{Received}

subscribers_of-append :
    (k : ℕ) (us vs : List (Use Handler))
    → subscribers_of k (us ++ vs) ≡ subscribers_of k us ++ subscribers_of k vs
unfolding subscribers_of
subscribers_of-append k [] vs = refl
subscribers_of-append k (EventBus.subscribes j h ∷ us) vs =
    ground (arith, subscribers_of-append k us vs)
subscribers_of-append k (EventBus.publishes j ∷ us) vs = subscribers_of-append k us vs

-- The bus on which events of some types were published.
abbrev pub publications : List EventType → List (Use Handler)
publications before = map (λ t. publishes (type_index t)) before

subscribers_of-publications :
    (k : ℕ) (before : List EventType) → subscribers_of k (publications before) ≡ []
unfolding subscribers_of
subscribers_of-publications k [] = refl
subscribers_of-publications k (t ∷ before) = subscribers_of-publications k before

-- A manager takes an event in if one of its handlers is for it.
abbrev pub workload_inbox : Received → List Received → List Received
workload_inbox WorkloadManager.other_event queue = queue
workload_inbox e queue = Queue.push e queue

module _ (fl : Float) where
  abbrev pub policy_inbox : Event fl → List (Event fl) → List (Event fl)
  policy_inbox PolicyManager.other_event queue = queue
  policy_inbox e queue = Queue.push e queue

  abbrev pub security_inbox : BaseEvent fl → List (Told fl) → List (Told fl)
  security_inbox (Events.add_event app) calls = calls ++ of_add app ∷ []
  security_inbox (Events.remove_event app) calls = calls ++ of_remove app ∷ []
  security_inbox e calls = calls

  abbrev pub routed : Bool → BaseEvent fl → Inboxes fl → Inboxes fl
  routed security e i = record {
    policy = policy_inbox (cast_for_policy fl e) i.policy;
    workload = workload_inbox (cast_for_workload fl e) i.workload;
    security = if security then security_inbox e i.security else i.security;
  }

  -- What the subscriptions of each part alone do with an event.
  delivered : (security : Bool) (e : BaseEvent fl) (i : Inboxes fl) → Inboxes fl
  delivered security e i =
      exec_all fl
        (subscribers_of (type_index (type_of fl e)) (
          policy_manager_subscriptions
          ++ (workload_manager_subscriptions
              ++ (if security then security_monitor_subscriptions else []))))
        e i

  delivered-routed :
      (security : Bool) (e : BaseEvent fl) (i : Inboxes fl)
      → delivered security e i ≡ routed security e i
  unfolding delivered subscribers_of policy_manager_subscriptions workload_manager_subscriptions
      security_monitor_subscriptions exec_all exec type_index type_of cast_for_policy
      cast_for_workload
  delivered-routed true (Events.fork_event parent child) i = refl
  delivered-routed true (Events.exec_event pid) i = refl
  delivered-routed true (Events.exit_event pid) i = refl
  delivered-routed true (Events.add_request_event app) i = refl
  delivered-routed true (Events.feedback_request_event pid ns n) i = refl
  delivered-routed true (Events.clear_event pid) i = refl
  delivered-routed true (Events.add_event app) i = refl
  delivered-routed true (Events.remove_event app) i = refl
  delivered-routed true (Events.feedback_event app n) i = refl
  delivered-routed true Events.timer_event i = refl
  delivered-routed true (Events.monitor_event load) i = refl
  delivered-routed true (Events.security_event app sai factors labels) i = refl
  delivered-routed false (Events.fork_event parent child) i = refl
  delivered-routed false (Events.exec_event pid) i = refl
  delivered-routed false (Events.exit_event pid) i = refl
  delivered-routed false (Events.add_request_event app) i = refl
  delivered-routed false (Events.feedback_request_event pid ns n) i = refl
  delivered-routed false (Events.clear_event pid) i = refl
  delivered-routed false (Events.add_event app) i = refl
  delivered-routed false (Events.remove_event app) i = refl
  delivered-routed false (Events.feedback_event app n) i = refl
  delivered-routed false Events.timer_event i = refl
  delivered-routed false (Events.monitor_event load) i = refl
  delivered-routed false (Events.security_event app sai factors labels) i = refl

  -- On the bus as the manager process has wired it, whatever was published before, an event goes into
  -- the queue of the policy manager exactly when its processEvent has a case for it, and likewise for the
  -- workload manager; and the security monitor, if it runs, is told of each app that is added or removed.
  pub send-routed :
      (security_period : ℤ) (before : List EventType) (e : BaseEvent fl) (i : Inboxes fl)
      → (send fl e (after (subscriptions security_period ++ publications before) []) i).0
        ≡ routed (ltb_ℤ (pos 0) security_period) e i
  unfolding send subscriptions
  send-routed security_period before e i =
      let k = type_index (type_of fl e) in
      rw
        (
          publish-after k (subscriptions security_period ++ publications before),
          subscribers_of-append k (subscriptions security_period) (publications before),
          subscribers_of-publications k before,
          append-nil (subscribers_of k (subscriptions security_period)),
        )
        (unfold delivered in delivered-routed (ltb_ℤ (pos 0) security_period) e i)
