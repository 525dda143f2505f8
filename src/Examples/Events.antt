-- ===== src/Examples/Events.antt =====
-- The queue, the bus and the two managers on a platform that adds every app.
use konro.Base.{◌≡◌, refl, true, false, Option, none, some, List, [], ◌∷◌, ◌++◌}
use konro.Base.Int.{ℤ, pos}
use konro.Base.OrderedSet.{find}
use konro.App.{App, integrated, make_app}
use konro.AppMapping.{make_app_mapping}
use konro.EventBus.{Use, subscribes, publishes, after, publish, subscribers_of, publish-after}
use konro.Float.{hundredths}
use konro.Policies.NoPolicy.{no_policy_instance}
use konro.PolicyManager
use konro.PolicyManager.{SecurityFactors, mapping_key, Event, PolicyManager}
use konro.PolicyManager.Tracking as Policy
use konro.PolicyManager.Tracking.{knows, process_event-knows}
use konro.Queue
use konro.Queue.{Call, pushes, pops, waits, asks, history, pushed, history_fifo, try_pop}
use konro.System.{System, Step, works, manages, here, next, relay, deliver}
use konro.System.Agreement.{Agrees, Reach-Agrees, Reach-drained}
use konro.WorkloadManager
use konro.WorkloadManager.{
  IPlatformControl, Added, added, Published, Received, fork, add_request, WorkloadManager,
}
use konro.WorkloadManager.Tracking as Workload
use konro.WorkloadManager.Tracking.{Follows, process_event-Follows}

abbrev calls : List (Call ℤ)
calls = pushes (pos 7) ∷ pops ∷ pushes (pos 8) ∷ asks ∷ waits ∷ pops ∷ []

history_fifo_example :
    (history calls (pos 6 ∷ [])).0 ++ (history calls (pos 6 ∷ [])).1 ≡ (pos 6 ∷ []) ++ pushed calls
history_fifo_example = history_fifo calls (pos 6 ∷ [])

abbrev uses : List (Use ℤ)
uses = subscribes 1 (pos 10) ∷ publishes 2 ∷ subscribes 2 (pos 20) ∷ subscribes 1 (pos 11) ∷ []

publish-after_example : (publish 1 (after uses [])).0 ≡ subscribers_of 1 uses
publish-after_example = publish-after 1 uses

abbrev open_platform : IPlatformControl
open_platform = record {
  P = Unit {0};
  add_application = λ app p. added app p;
  remove_application = λ app p. p;
  process_name = λ p pid. "sh";
}

abbrev app : App
app = make_app (pos 42) integrated

abbrev idle : WorkloadManager open_platform
idle = record {
  platform = tt;
  change_container_cgroup = false;
  change_kubernetes_cgroup = false;
  apps = [];
  bus = [];
}

abbrev busy : WorkloadManager open_platform
busy = record idle { apps = app ∷ []; bus = WorkloadManager.add_event app ∷ [] }

adds : WorkloadManager.process_event open_platform (add_request app) idle ≡ some busy
unfolding WorkloadManager.process_event WorkloadManager.process_add_request_event
    WorkloadManager.is_in_konro WorkloadManager.find_app_by_pid WorkloadManager.add
    WorkloadManager.settle WorkloadManager.publish find konro.Base.OrderedSet.insert
adds = refl

process_event-Follows_example : Follows open_platform idle busy
process_event-Follows_example = process_event-Follows open_platform (add_request app) idle busy adds

abbrev policy : PolicyManager.IBasePolicy hundredths
policy = no_policy_instance hundredths

abbrev waiting : PolicyManager hundredths policy
waiting = record { apps = []; policy_state = tt }

abbrev managing : PolicyManager hundredths policy
managing = record { apps = make_app_mapping hundredths app ∷ []; policy_state = tt }

takes :
    PolicyManager.process_event hundredths policy (PolicyManager.add_event app) waiting
    ≡ some managing
unfolding PolicyManager.process_event PolicyManager.process_add_event PolicyManager.returned
    PolicyManager.unshared PolicyManager.share find konro.Base.OrderedSet.insert
takes = refl

process_event-knows_example :
    Policy.pids hundredths policy managing
    ≡ knows {fl = hundredths} (PolicyManager.add_event app) (Policy.pids hundredths policy waiting)
process_event-knows_example =
    process_event-knows hundredths policy (PolicyManager.add_event app) waiting managing takes

abbrev factors : SecurityFactors hundredths
factors = record {
  fanout = 0;
  half_open = 0;
  fork_rate = 90;
  new_exec = 40;
  cpu_burst = 0;
  egress = 0;
  mem_growth = 0;
  raw_socket = 0;
}

abbrev alarmed : PolicyManager hundredths policy
alarmed = record {
  apps = record (make_app_mapping hundredths app) { sai = 65 } ∷ [];
  policy_state = tt;
}

alarms :
    PolicyManager.process_security_event hundredths policy app 65 factors "fork" managing
    ≡ some alarmed
unfolding PolicyManager.process_security_event PolicyManager.returned PolicyManager.share find
alarms = refl

abbrev started : System hundredths open_platform policy
started = record { workload = idle; queue = []; manager = waiting }

abbrev queued : System hundredths open_platform policy
queued = record { workload = busy; queue = PolicyManager.add_event app ∷ []; manager = waiting }

abbrev settled : System hundredths open_platform policy
settled = record { workload = busy; queue = []; manager = managing }

started-Agrees : Agrees hundredths open_platform policy started
started-Agrees = record { agreed = refl; distinct = tt }

worked : Step hundredths open_platform policy started queued
unfolding deliver relay Queue.push
worked = works (add_request app) busy (WorkloadManager.add_event app ∷ []) adds refl

managed : Step hundredths open_platform policy queued settled
unfolding try_pop
managed = manages (PolicyManager.add_event app) [] managing refl takes

Reach-Agrees_example : Agrees hundredths open_platform policy queued
Reach-Agrees_example =
    Reach-Agrees hundredths open_platform policy started-Agrees (next here worked)

Reach-drained_example : Policy.pids hundredths policy managing ≡ Workload.pids open_platform busy
Reach-drained_example =
    Reach-drained hundredths open_platform policy started-Agrees (next (next here worked) managed)
      refl
