-- ===== src/KonroManager/Wiring/Relay.antt =====
-- What the workload manager publishes reaches the policy manager as System.antt relays it.
use konro.Base.{◌≡◌, ◌∙◌, refl, sym, ap, Bool, List, [], ◌∷◌, ◌++◌, append_assoc}
use konro.Base.Int.{ℤ, pos, ltb_ℤ}
use konro.EventBus.{Bus, Use, subscribes, publishes, after}
use konro.Events.{EventType, BaseEvent, type_of, type_index}
use konro.Events
use konro.Float.{Float}
use konro.KonroManager.Wiring.{
  Handler, subscriptions, cast_for_policy, cast_for_workload, Inboxes, send,
}
use konro.KonroManager.Wiring.Routing.{publications, routed, send-routed}
use konro.PolicyManager.{IBasePolicy}
use konro.Queue
use konro.System.{relay, deliver}
use konro.WorkloadManager
use konro.WorkloadManager.{IPlatformControl, Published}

after-append :
    {H : Type 0} (us vs : List (Use H)) (bus : Bus H)
    → after (us ++ vs) bus ≡ after vs (after us bus)
unfolding after
after-append [] vs bus = refl
after-append (subscribes k h ∷ us) vs bus = after-append us vs _
after-append (publishes k ∷ us) vs bus = after-append us vs _

map-snoc :
    (before : List EventType) (t : EventType)
    → publications before ++ publishes (type_index t) ∷ [] ≡ publications (before ++ t ∷ [])
map-snoc [] t = refl
map-snoc (s ∷ before) t = ap (◌∷◌ (publishes (type_index s))) (map-snoc before t)

module _ (fl : Float) (pc : IPlatformControl) (policy : IBasePolicy fl) where
  -- The event that is published.
  abbrev pub announced : Published → BaseEvent fl
  announced (WorkloadManager.add_event app) = Events.add_event app
  announced (WorkloadManager.remove_event app) = Events.remove_event app
  announced (WorkloadManager.feedback_event app n) = Events.feedback_event app n

  abbrev pub send_all : List Published → Bus Handler → Inboxes fl → Inboxes fl
  send_all [] bus i = i
  send_all (p ∷ ps) bus i = let r = send fl (announced p) bus i in send_all ps r.1 r.0

  abbrev pub wired : ℤ → List EventType → Bus Handler
  wired security_period before = after (subscriptions security_period ++ publications before) []

  bus_lem :
      (security_period : ℤ) (before : List EventType) (e : BaseEvent fl) (i : Inboxes fl)
      → (send fl e (wired security_period before) i).1
        ≡ wired security_period (before ++ type_of fl e ∷ [])
  unfolding send after
  bus_lem security_period before e i =
      let k = publishes (type_index (type_of fl e)) in
      sym (after-append (subscriptions security_period ++ publications before) (k ∷ []) [])
      ∙ ap (λ us. after us [])
          (append_assoc (subscriptions security_period) (publications before) (k ∷ [])
            ∙ ap (λ us. subscriptions security_period ++ us) (map-snoc before (type_of fl e)))

  routed-relay :
      (security : Bool) (p : Published) (i : Inboxes fl)
      → ((routed fl security (announced p) i).policy ≡ Queue.push (relay fl pc policy p) i.policy)
        × ((routed fl security (announced p) i).workload ≡ i.workload)
  unfolding cast_for_policy cast_for_workload relay
  routed-relay security (WorkloadManager.add_event app) i = (refl, refl)
  routed-relay security (WorkloadManager.remove_event app) i = (refl, refl)
  routed-relay security (WorkloadManager.feedback_event app n) i = (refl, refl)

  -- On the bus as it is wired, whatever was published before, what the workload manager publishes goes
  -- into the policy manager's queue as the steps of the system deliver it, in that order, and none of it
  -- comes back to the workload manager.
  pub send_all-deliver :
      (security_period : ℤ) (before : List EventType) (ps : List Published) (i : Inboxes fl)
      → ((send_all ps (wired security_period before) i).policy ≡ deliver fl pc policy ps i.policy)
        × ((send_all ps (wired security_period before) i).workload ≡ i.workload)
  unfolding deliver
  send_all-deliver security_period before [] i = (refl, refl)
  send_all-deliver security_period before (p ∷ ps) i =
      let e = announced p in
      let j = (send fl e (wired security_period before) i).0 in
      let r = routed-relay (ltb_ℤ (pos 0) security_period) p i in
      let s = send-routed fl security_period before e i in
      let ih = send_all-deliver security_period (before ++ type_of fl e ∷ []) ps j in
      let b = ap (λ bus. send_all ps bus j) (bus_lem security_period before e i) in
      (
        ap (λ x. x.policy) b ∙ ih.0 ∙ ap (deliver fl pc policy ps) (ap (λ x. x.policy) s ∙ r.0),
        ap (λ x. x.workload) b ∙ ih.1 ∙ ap (λ x. x.workload) s ∙ r.1,
      )
