-- ===== src/Locks/Deadlock.antt =====
-- The order in which the two mutexes are taken.
use konro.Base.{ℕ, suc, ◌≡◌, refl, none, some, List, [], ◌∷◌}
use konro.Locks.{
  Thread, security_monitor, workload_manager, other_publisher, asleep, scanning, at_work,
  at_handler, elsewhere, Threads, step, run,
}

-- No thread can take a step.
abbrev pub IsStuck : ℕ → Threads → Type 0
IsStuck reports s = (t : Thread) → step reports t s ≡ none

run-IsStuck :
    (reports : ℕ) (ts : List Thread) (s : Threads) → IsStuck reports s → run reports ts s ≡ s
unfolding run
run-IsStuck reports [] s h = refl
run-IsStuck reports (t ∷ ts) s h = rw (h t) (run-IsStuck reports ts s h)

-- The security monitor has begun a scan that reports an app, and the workload manager a publication.
abbrev pub embraced : ℕ → Threads → Threads
embraced n s = record s {
  global_mutex = some workload_manager;
  apps_mutex = some security_monitor;
  monitor = scanning (suc n);
  manager = at_handler;
}

pub embraced-IsStuck : (n : ℕ) (s : Threads) → s.other ≡ elsewhere → IsStuck (suc n) (embraced n s)
unfolding step
embraced-IsStuck n s h security_monitor = refl
embraced-IsStuck n s h workload_manager = refl
embraced-IsStuck n s h other_publisher = rw h refl

-- Where a scan reports an app and both mutexes are free with every thread at its start: if the security
-- monitor takes a step and then the workload manager, each waits for the mutex that the other holds, and
-- whatever turns the threads then take, nothing changes any more: no event of any kind is published.
pub run-embraced :
    (n : ℕ) (s : Threads) (ts : List Thread)
    → s.global_mutex ≡ none
    → s.apps_mutex ≡ none
    → s.monitor ≡ asleep
    → s.manager ≡ at_work
    → s.other ≡ elsewhere
    → run (suc n) (security_monitor ∷ workload_manager ∷ ts) s ≡ embraced n s
unfolding run
run-embraced n s ts g a m w o =
    rw (a, m, g, w) (run-IsStuck (suc n) ts (embraced n s) (embraced-IsStuck n s o))
