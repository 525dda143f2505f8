-- ===== src/Examples/Locks.antt =====
-- The mutexes at concrete states: a start in which none is held, and the two threads that embrace.
use konro.Base.{ℕ, suc, ◌<◌, ◌≡◌, refl, none, List, [], ◌∷◌}
use konro.Locks.{
  Thread, security_monitor, workload_manager, other_publisher, asleep, scanning, at_work,
  at_handler, elsewhere, Threads, run,
}
use konro.Locks.Deadlock.{embraced, IsStuck, embraced-IsStuck, run-embraced}
use konro.Locks.Owners.{IsOwned, run-stuck}

abbrev all_free : Threads
all_free = record {
  global_mutex = none;
  apps_mutex = none;
  monitor = asleep;
  manager = at_work;
  other = elsewhere;
  published = 0;
}

abbrev turns : List Thread
turns = security_monitor ∷ workload_manager ∷ []

-- Three more turns, in which nothing happens.
abbrev more_turns : List Thread
more_turns = other_publisher ∷ security_monitor ∷ workload_manager ∷ []

run-embraced_example :
    run 2 (security_monitor ∷ workload_manager ∷ more_turns) all_free ≡ embraced 1 all_free
run-embraced_example = run-embraced 1 all_free more_turns refl refl refl refl refl

all_free-IsOwned : IsOwned all_free
all_free-IsOwned = record {
  global_monitor = refl;
  global_manager = refl;
  global_other = refl;
  apps_monitor = refl;
  apps_manager = refl;
  apps_other = refl;
}

turns-IsStuck : IsStuck 2 (run 2 turns all_free)
unfolding run
turns-IsStuck = embraced-IsStuck 1 all_free refl

run-stuck_example :
    (n : ℕ) × (n < 2)
    × ((run 2 turns all_free).monitor ≡ scanning (suc n))
    × ((run 2 turns all_free).manager ≡ at_handler)
run-stuck_example = run-stuck 2 turns all_free all_free-IsOwned refl turns-IsStuck
