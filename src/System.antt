-- ===== src/System.antt =====
-- How the parts work together (rm/src/konromanager.cpp starts them): the workload manager publishes
-- on the event bus, which puts each event into the policy manager's queue; the policy manager's
-- thread takes the events out one by one. Other threads (timer, platform monitor, security monitor,
-- HTTP server) put events of other types into the same queue at any time. A step is one event handled
-- by one thread, or one event queued.
pub mod Agreement
use konro.Base.{
  ℕ, ◌≡◌, ◌∙◌, refl, sym, ap, Option, none, some, List, [], ◌∷◌, ◌++◌, append-nil, append_assoc,
  map,
}
use konro.Base.Int.{ℤ}
use konro.Float.{Float}
use konro.PolicyManager
use konro.PolicyManager.{IBasePolicy, Event, PolicyManager}
use konro.PolicyManager.Tracking.{knows, process_event-knows}
use konro.PolicyManager.Tracking
use konro.Queue
use konro.WorkloadManager
use konro.WorkloadManager.{IPlatformControl, Published, Received, WorkloadManager}
use konro.WorkloadManager.Tracking.{heard, heard_one, Follows, process_event-Follows}
use konro.WorkloadManager.Tracking as Workload

module _ (fl : Float) (pc : IPlatformControl) (policy : IBasePolicy fl) where
  pub record System : Type 0 where
    pub workload : WorkloadManager pc
    pub queue : List (Event fl)
    pub manager : PolicyManager fl policy

  -- The event as the policy manager receives it.
  unfoldable pub relay : Published → Event fl
  relay (WorkloadManager.add_event app) = PolicyManager.add_event app
  relay (WorkloadManager.remove_event app) = PolicyManager.remove_event app
  relay (WorkloadManager.feedback_event app n) = PolicyManager.feedback_event app n

  -- BaseEventReceiver::addEvent, for each event in the order of publication.
  unfoldable pub deliver : List Published → List (Event fl) → List (Event fl)
  unfolding relay
  deliver [] queue = queue
  deliver (e ∷ es) queue = deliver es (Queue.push (relay e) queue)

  -- An event of another thread: it tells of no app that is added or removed.
  abbrev pub IsForeign : Event fl → Type 0
  IsForeign e = (pids : List ℤ) → knows e pids ≡ pids

  pub data Step (s : System) : System → Type 0 where
    works :
        (e : Received) (w : WorkloadManager pc) (news : List Published)
        → WorkloadManager.process_event pc e s.workload ≡ some w
        → w.bus ≡ s.workload.bus ++ news
        → Step s (record s { workload = w; queue = deliver news s.queue })
    queues : (e : Event fl) → IsForeign e → Step s (record s { queue = Queue.push e s.queue })
    manages :
        (e : Event fl) (rest : List (Event fl)) (pm : PolicyManager fl policy)
        → Queue.try_pop s.queue ≡ (some e, rest)
        → PolicyManager.process_event fl policy e s.manager ≡ some pm
        → Step s (record s { queue = rest; manager = pm })

  pub data Reach (s : System) : System → Type 0 where
    here : Reach s s
    next : {t u : System} → Reach s t → Step t u → Reach s u
