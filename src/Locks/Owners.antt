-- ===== src/Locks/Owners.antt =====
-- Who holds the mutexes, and when nobody can go on.
use konro.Base.{
  ℕ, zero, suc, ◌≡◌, ◌≤◌, ◌<◌, refl, ap, Bool, true, false, Option, none, some, List, [], ◌∷◌,
  arith,
}
use konro.Locks.{
  Thread, security_monitor, workload_manager, other_publisher, MonitorPlace, asleep, scanning,
  reporting, ManagerPlace, at_work, at_handler, in_handler, at_return, OtherPlace, elsewhere,
  publishing, Threads, step, monitor_step, manager_step, other_step, or_stay, run,
}
use konro.Locks.Deadlock.{IsStuck}

abbrev pub is_held_by : Thread → Option Thread → Bool
is_held_by t none = false
is_held_by security_monitor (some security_monitor) = true
is_held_by security_monitor (some workload_manager) = false
is_held_by security_monitor (some other_publisher) = false
is_held_by workload_manager (some security_monitor) = false
is_held_by workload_manager (some workload_manager) = true
is_held_by workload_manager (some other_publisher) = false
is_held_by other_publisher (some security_monitor) = false
is_held_by other_publisher (some workload_manager) = false
is_held_by other_publisher (some other_publisher) = true

abbrev pub is_reporting : MonitorPlace → Bool
is_reporting asleep = false
is_reporting (scanning n) = false
is_reporting (reporting n) = true

abbrev pub is_awake : MonitorPlace → Bool
is_awake asleep = false
is_awake (scanning n) = true
is_awake (reporting n) = true

abbrev pub is_publishing : ManagerPlace → Bool
is_publishing at_work = false
is_publishing at_handler = true
is_publishing in_handler = true
is_publishing at_return = true

abbrev pub is_in_handler : ManagerPlace → Bool
is_in_handler at_work = false
is_in_handler at_handler = false
is_in_handler in_handler = true
is_in_handler at_return = false

abbrev pub is_other_publishing : OtherPlace → Bool
is_other_publishing elsewhere = false
is_other_publishing publishing = true

-- Each mutex is held by the thread that stands where it holds it, and by no other.
pub record IsOwned (s : Threads) : Type 0 where
  pub global_monitor : is_held_by security_monitor s.global_mutex ≡ is_reporting s.monitor
  pub global_manager : is_held_by workload_manager s.global_mutex ≡ is_publishing s.manager
  pub global_other : is_held_by other_publisher s.global_mutex ≡ is_other_publishing s.other
  pub apps_monitor : is_held_by security_monitor s.apps_mutex ≡ is_awake s.monitor
  pub apps_manager : is_held_by workload_manager s.apps_mutex ≡ is_in_handler s.manager
  pub apps_other : is_held_by other_publisher s.apps_mutex ≡ false

monitor_step-IsOwned :
    (reports : ℕ) (p : MonitorPlace) (s : Threads)
    → s.monitor ≡ p
    → IsOwned s
    → IsOwned (or_stay (monitor_step reports p s) s)
unfolding monitor_step
monitor_step-IsOwned reports p s e h = ground arith

manager_step-IsOwned :
    (p : ManagerPlace) (s : Threads)
    → s.manager ≡ p
    → IsOwned s
    → IsOwned (or_stay (manager_step p s) s)
unfolding manager_step
manager_step-IsOwned p s e h = ground arith

other_step-IsOwned :
    (p : OtherPlace) (s : Threads) → s.other ≡ p → IsOwned s → IsOwned (or_stay (other_step p s) s)
unfolding other_step
other_step-IsOwned p s e h = ground arith

pub run-IsOwned :
    (reports : ℕ) (ts : List Thread) (s : Threads) → IsOwned s → IsOwned (run reports ts s)
unfolding run step
run-IsOwned reports [] s h = h
run-IsOwned reports (security_monitor ∷ ts) s h =
    run-IsOwned reports ts _ (monitor_step-IsOwned reports s.monitor s refl h)
run-IsOwned reports (workload_manager ∷ ts) s h =
    run-IsOwned reports ts _ (manager_step-IsOwned s.manager s refl h)
run-IsOwned reports (other_publisher ∷ ts) s h =
    run-IsOwned reports ts _ (other_step-IsOwned s.other s refl h)

-- The reports that are left of a scan.
abbrev pub left : MonitorPlace → ℕ
left asleep = 0
left (scanning n) = n
left (reporting n) = n

monitor_step-left :
    (reports : ℕ) (p : MonitorPlace) (s : Threads)
    → s.monitor ≡ p
    → left s.monitor ≤ reports
    → left (or_stay (monitor_step reports p s) s).monitor ≤ reports
unfolding monitor_step
monitor_step-left reports p s e h = ground arith

manager_step-monitor :
    (p : ManagerPlace) (s : Threads) → (or_stay (manager_step p s) s).monitor ≡ s.monitor
unfolding manager_step
manager_step-monitor p s = ground arith

other_step-monitor :
    (p : OtherPlace) (s : Threads) → (or_stay (other_step p s) s).monitor ≡ s.monitor
unfolding other_step
other_step-monitor p s = ground arith

run-left :
    (reports : ℕ) (ts : List Thread) (s : Threads)
    → left s.monitor ≤ reports
    → left (run reports ts s).monitor ≤ reports
unfolding run step
run-left reports [] s h = h
run-left reports (security_monitor ∷ ts) s h =
    run-left reports ts _ (monitor_step-left reports s.monitor s refl h)
run-left reports (workload_manager ∷ ts) s h =
    run-left reports ts _ (rw (manager_step-monitor s.manager s) h)
run-left reports (other_publisher ∷ ts) s h =
    run-left reports ts _ (rw (other_step-monitor s.other s) h)

-- What each thread waits for, by its place.
waits :
    (reports : ℕ) (p : MonitorPlace) (q : ManagerPlace) (s : Threads)
    → s.monitor ≡ p
    → s.manager ≡ q
    → IsOwned s
    → monitor_step reports p s ≡ none
    → manager_step q s ≡ none
    → other_step s.other s ≡ none
    → (n : ℕ) × (p ≡ scanning (suc n)) × (q ≡ at_handler)
unfolding monitor_step manager_step other_step
waits reports (scanning (suc n)) at_handler s e f h a b c = (n, refl, refl)
waits reports asleep q s e f h a b c = absurd (ground arith)
waits reports (scanning zero) q s e f h a b c = absurd (ground arith)
waits reports (reporting n) q s e f h a b c = absurd (ground arith)
waits reports (scanning (suc n)) at_work s e f h a b c = absurd (ground arith)
waits reports (scanning (suc n)) in_handler s e f h a b c = absurd (ground arith)
waits reports (scanning (suc n)) at_return s e f h a b c = absurd (ground arith)

-- Whatever turns the threads take from a state in which the security monitor sleeps and each mutex is held
-- by the thread that stands where it holds it and by no other, they come to where none can take a step only
-- where the security monitor, in a scan that has an app left to report, is about to publish, and the workload
-- manager, in its publication, about to call the security monitor: never where scans report no app.
pub run-stuck :
    (reports : ℕ) (ts : List Thread) (s : Threads)
    → IsOwned s
    → s.monitor ≡ asleep
    → IsStuck reports (run reports ts s)
    → (n : ℕ) × (n < reports)
      × ((run reports ts s).monitor ≡ scanning (suc n))
      × ((run reports ts s).manager ≡ at_handler)
unfolding step
run-stuck reports ts s h m k =
    let t = run reports ts s in
    let (n, p, q) =
      waits reports t.monitor t.manager t refl refl (run-IsOwned reports ts s h)
        (k security_monitor) (k workload_manager) (k other_publisher) in
    let few : left t.monitor ≤ reports = run-left reports ts s (rw m (omega arith)) in
    (n, omega (arith, few, ap left p), p, q)
