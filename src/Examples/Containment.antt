-- ===== src/Examples/Containment.antt =====
-- The state machine of rm/policymanager/policies/secstate.cpp at three thresholds.
use konro.Base.{◌≢◌, ◌+◌, ◌≤◌, ◌≡◌, refl, [], ◌∷◌, arith}
use konro.Base.Int.{pos}
use konro.Float.{hundredths}
use konro.SecState.{
  observe, throttle, restrict, quarantine, rank, StateTracker, cleared, PolicyThresholds, target,
  advance, step, run,
}
use konro.SecState.Escalation.{step_bounds, Reaches, run-Reaches}
use konro.SecState.Dwell.{run_lowers}

abbrev th : PolicyThresholds hundredths
th = record { t1 = 40; t2 = 60; t3 = 80; margin = 5; dwell_n = pos 3 }

abbrev restricted : StateTracker
restricted = record { state = restrict; below_count = 1 }

abbrev frozen : StateTracker
frozen = record { state = quarantine; below_count = 0 }

restrict_ne : restrict ≢ quarantine
restrict_ne e = cc

observe_ne : observe ≢ quarantine
observe_ne e = cc

step_bounds_example :
    (rank (target hundredths 45 th 0) ≤ rank (step hundredths 45 th 0 restricted).state)
    × (rank restricted.state ≤ rank (step hundredths 45 th 0 restricted).state + 1)
step_bounds_example = step_bounds hundredths 45 th 0 restricted

run-Reaches_example : Reaches hundredths th 5 (50 ∷ 86 ∷ [])
unfolding run step target advance
run-Reaches_example = run-Reaches hundredths th 5 (50 ∷ 86 ∷ []) cleared observe_ne refl

run_lowers_example :
    run hundredths th 0 (45 ∷ 10 ∷ []) restricted ≡ record { state = throttle; below_count = 0 }
unfolding target
run_lowers_example =
    run_lowers hundredths th 0 (45 ∷ 10 ∷ []) restricted restrict_ne
      (omega arith, (omega arith, tt)) (omega arith) refl
