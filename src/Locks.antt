-- ===== src/Locks.antt =====
-- The mutexes of rm/librmcommon/eventbus.h (global_mutex, held while the handlers of a published event
-- run) and of rm/securitymonitor/securitymonitor.h (appsMutex_, held during a scan and in the handlers of
-- AddEvent and RemoveEvent), and the threads that take them, step by step.
pub mod Deadlock
pub mod Owners
use konro.Base.{ℕ, zero, suc, Option, none, some, List, [], ◌∷◌}

pub data Thread : Type 0 where
  security_monitor workload_manager other_publisher : Thread

-- SecurityMonitor::run between two looks at its period: asleep, in a scan of which some apps are still to
-- be reported, or in a publication of the report of one.
pub data MonitorPlace : Type 0 where
  asleep : MonitorPlace
  scanning : ℕ → MonitorPlace
  reporting : ℕ → MonitorPlace

-- WorkloadManager::add or remove, from where it publishes: before it, where the handler of the security
-- monitor is called, in that handler, and behind it.
pub data ManagerPlace : Type 0 where
  at_work at_handler in_handler at_return : ManagerPlace

-- A thread that publishes an event which the security monitor does not handle.
pub data OtherPlace : Type 0 where
  elsewhere publishing : OtherPlace

-- A mutex is `none` or the thread that holds it. Publications that are done are counted.
pub record Threads : Type 0 where
  pub global_mutex : Option Thread
  pub apps_mutex : Option Thread
  pub monitor : MonitorPlace
  pub manager : ManagerPlace
  pub other : OtherPlace
  pub published : ℕ

-- A thread that locks a mutex goes on when it is free, and waits otherwise.
abbrev pub locked : Option Thread → Threads → Option Threads
locked none s = some s
locked (some holder) s = none

-- The security monitor, whose scan reports that many apps.
unfoldable pub monitor_step : ℕ → MonitorPlace → Threads → Option Threads
monitor_step reports asleep s =
    locked s.apps_mutex
      (record s { apps_mutex = some security_monitor; monitor = scanning reports })
monitor_step reports (scanning zero) s = some (record s { apps_mutex = none; monitor = asleep })
monitor_step reports (scanning (suc n)) s =
    locked s.global_mutex (record s { global_mutex = some security_monitor; monitor = reporting n })
monitor_step reports (reporting n) s =
    some (record s { global_mutex = none; monitor = scanning n; published = suc s.published })

unfoldable pub manager_step : ManagerPlace → Threads → Option Threads
manager_step at_work s =
    locked s.global_mutex (record s { global_mutex = some workload_manager; manager = at_handler })
manager_step at_handler s =
    locked s.apps_mutex (record s { apps_mutex = some workload_manager; manager = in_handler })
manager_step in_handler s = some (record s { apps_mutex = none; manager = at_return })
manager_step at_return s =
    some (record s { global_mutex = none; manager = at_work; published = suc s.published })

unfoldable pub other_step : OtherPlace → Threads → Option Threads
other_step elsewhere s =
    locked s.global_mutex (record s { global_mutex = some other_publisher; other = publishing })
other_step publishing s =
    some (record s { global_mutex = none; other = elsewhere; published = suc s.published })

unfoldable pub step : ℕ → Thread → Threads → Option Threads
unfolding monitor_step manager_step other_step
step reports security_monitor s = monitor_step reports s.monitor s
step reports workload_manager s = manager_step s.manager s
step reports other_publisher s = other_step s.other s

abbrev pub or_stay : Option Threads → Threads → Threads
or_stay none s = s
or_stay (some t) s = t

-- The threads take turns in any order; one that waits does nothing with its turn.
unfoldable pub run : ℕ → List Thread → Threads → Threads
unfolding step
run reports [] s = s
run reports (t ∷ ts) s = run reports ts (or_stay (step reports t s) s)
