-- ===== src/System/Agreement.antt =====
-- The two sets of applications, the workload manager's and the policy manager's, agree.
use mathlib.Core.List.{append_cancel_left}
use konro.Base.{arith, ◌≡◌, ◌∙◌, refl, sym, ap, some, List, [], ◌∷◌, ◌++◌}
use konro.Base.Int.{ℤ}
use konro.Base.OrderedSet.{IsSortedKey, insert_key, erase_key, insert-IsSorted, erase-IsSorted}
use konro.Float.{Float}
use konro.PolicyManager.{IBasePolicy, Event}
use konro.PolicyManager.Tracking.{knows, process_event-knows}
use konro.PolicyManager.Tracking as Policy
use konro.Queue
use konro.System.{System, relay, deliver, Step, Reach, works, queues, manages, here, next}
use konro.WorkloadManager
use konro.WorkloadManager.{IPlatformControl, Published, Received, WorkloadManager}
use konro.WorkloadManager.Tracking.{heard, heard_one, Follows, process_event-Follows}
use konro.WorkloadManager.Tracking as Workload

heard_one-IsSorted : (e : Published) (ps : List ℤ) → IsSortedKey ps → IsSortedKey (heard_one e ps)
heard_one-IsSorted (WorkloadManager.add_event app) ps h =
    unfold insert_key in insert-IsSorted (λ x. x) app.pid ps h
heard_one-IsSorted (WorkloadManager.remove_event app) ps h =
    unfold erase_key in erase-IsSorted (λ x. x) app.pid ps h
heard_one-IsSorted (WorkloadManager.feedback_event app n) ps h = h

heard-IsSorted : (es : List Published) (ps : List ℤ) → IsSortedKey ps → IsSortedKey (heard es ps)
heard-IsSorted [] ps h = h
heard-IsSorted (e ∷ es) ps h = heard-IsSorted es (heard_one e ps) (heard_one-IsSorted e ps h)

module _ (fl : Float) (pc : IPlatformControl) (policy : IBasePolicy fl) where
  -- The pids that the policy manager will track when the queued events have been handled.
  abbrev pub expects : List (Event fl) → List ℤ → List ℤ
  expects [] ps = ps
  expects (e ∷ es) ps = expects es (knows e ps)

  expects-append :
      (es fs : List (Event fl)) (ps : List ℤ) → expects (es ++ fs) ps ≡ expects fs (expects es ps)
  expects-append [] fs ps = refl
  expects-append (e ∷ es) fs ps = expects-append es fs (knows e ps)

  expects-push :
      (e : Event fl) (es : List (Event fl)) (ps : List ℤ)
      → expects (Queue.push e es) ps ≡ knows e (expects es ps)
  unfolding Queue.push
  expects-push e es ps = expects-append es (e ∷ []) ps

  expects-pop :
      (e : Event fl) (rest queue : List (Event fl)) (ps : List ℤ)
      → Queue.try_pop queue ≡ (some e, rest)
      → expects rest (knows e ps) ≡ expects queue ps
  unfolding Queue.try_pop
  expects-pop e rest [] ps q = absurd (cc)
  expects-pop e rest (x ∷ xs) ps q = ground arith

  knows-relay : (e : Published) (ps : List ℤ) → knows (relay fl pc policy e) ps ≡ heard_one e ps
  unfolding relay
  knows-relay (WorkloadManager.add_event app) ps = refl
  knows-relay (WorkloadManager.remove_event app) ps = refl
  knows-relay (WorkloadManager.feedback_event app n) ps = refl

  expects-deliver :
      (news : List Published) (queue : List (Event fl)) (ps : List ℤ)
      → expects (deliver fl pc policy news queue) ps ≡ heard news (expects queue ps)
  unfolding deliver
  expects-deliver [] queue ps = refl
  expects-deliver (e ∷ es) queue ps =
      expects-deliver es (Queue.push (relay fl pc policy e) queue) ps
      ∙ ap (heard es)
          (expects-push (relay fl pc policy e) queue ps ∙ knows-relay e (expects queue ps))

  -- The policy manager's pids, once it has handled what is queued, are the workload manager's, which
  -- are in order and distinct.
  pub record Agrees (s : System fl pc policy) : Type 0 where
    pub agreed : expects s.queue (Policy.pids fl policy s.manager) ≡ Workload.pids pc s.workload
    pub distinct : IsSortedKey (Workload.pids pc s.workload)

  heard_news :
      (s : System fl pc policy) (e : Received) (w : WorkloadManager pc) (news : List Published)
      → WorkloadManager.process_event pc e s.workload ≡ some w
      → w.bus ≡ s.workload.bus ++ news
      → Workload.pids pc w ≡ heard news (Workload.pids pc s.workload)
  heard_news s e w news h b =
      let f = process_event-Follows pc e s.workload w h in
      f.tracked
      ∙ ap (λ es. heard es (Workload.pids pc s.workload))
          (append_cancel_left s.workload.bus _ _ (sym f.published ∙ b))

  Step-Agrees : {s t : System fl pc policy} → Step fl pc policy s t → Agrees s → Agrees t
  Step-Agrees {s} (works e w news h b) a =
      let f = heard_news s e w news h b in
      record {
        agreed =
            expects-deliver news s.queue (Policy.pids fl policy s.manager)
            ∙ ap (heard news) a.agreed
            ∙ sym f;
        distinct = rw f (heard-IsSorted news (Workload.pids pc s.workload) a.distinct);
      }
  Step-Agrees {s} (queues e foreign) a = record {
    agreed = expects-push e s.queue (Policy.pids fl policy s.manager) ∙ foreign _ ∙ a.agreed;
    distinct = a.distinct;
  }
  Step-Agrees {s} (manages e rest pm p h) a = record {
    agreed =
        ap (expects rest) (process_event-knows fl policy e s.manager pm h)
        ∙ expects-pop e rest s.queue _ p
        ∙ a.agreed;
    distinct = a.distinct;
  }

  -- From a state in which the managers agree, whatever the order of the threads' steps is, every
  -- state that is reached is one in which the policy manager is behind the workload manager by
  -- the queued events only, and in which no pid is tracked twice.
  pub Reach-Agrees : {s t : System fl pc policy} → Agrees s → Reach fl pc policy s t → Agrees t
  Reach-Agrees a here = a
  Reach-Agrees a (next r st) = Step-Agrees st (Reach-Agrees a r)

  -- From a state in which the managers agree, whenever a state is reached whose queue is empty,
  -- the policy manager tracks the pids that the workload manager tracks.
  pub Reach-drained :
      {s t : System fl pc policy}
      → Agrees s
      → Reach fl pc policy s t
      → t.queue ≡ []
      → Policy.pids fl policy t.manager ≡ Workload.pids pc t.workload
  Reach-drained {t} a r e =
      sym (ap (λ q. expects q (Policy.pids fl policy t.manager)) e) ∙ (Reach-Agrees a r).agreed
