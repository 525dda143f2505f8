-- ===== src/SecState/Dwell.antt =====
-- Hysteresis: how long the SAI has to stay low before the containment is relaxed.
use konro.Base.{◌+◌, ◌<◌, ◌≡◌, ◌≢◌, ◌⊎◌, List, [], ◌∷◌, arith, length, All}
use konro.Base.Int.{pos_part}
use konro.Float.{Float}
use konro.SecState.{
  SecState, quarantine, rank, lower, StateTracker, PolicyThresholds, target, step, run,
}

module _ (fl : Float) where
  open fl use {F}

  -- The counter stays below the dwell time, so the int that holds it does not overflow.
  abbrev pub IsCounting : PolicyThresholds fl → StateTracker → Type 0
  IsCounting th t = (t.below_count ≡ 0) ⊎ (t.below_count < pos_part th.dwell_n)

  pub step-IsCounting :
      (sai : F) (th : PolicyThresholds fl) (off : F) (t : StateTracker)
      → IsCounting th t
      → IsCounting th (step fl sai th off t)
  unfolding step
  step-IsCounting sai th off t c = ground arith

  -- A count of low alerts that is 0 or below the dwell time is so after any sequence of alerts.
  run-IsCounting :
      (th : PolicyThresholds fl) (off : F) (sais : List F) (t : StateTracker)
      → IsCounting th t
      → IsCounting th (run fl th off sais t)
  unfolding run
  run-IsCounting th off [] t c = c
  run-IsCounting th off (sai ∷ sais) t c =
      run-IsCounting th off sais (step fl sai th off t) (step-IsCounting sai th off t c)

  -- The alert calls for less than the state.
  abbrev pub IsBelow : PolicyThresholds fl → F → SecState → F → Type 0
  IsBelow th off s sai = rank (target fl sai th off) < rank s

  step_waits :
      (sai : F) (th : PolicyThresholds fl) (off : F) (t : StateTracker)
      → t.state ≢ quarantine
      → IsBelow th off t.state sai
      → t.below_count + 1 < pos_part th.dwell_n
      → step fl sai th off t ≡ record t { below_count = t.below_count + 1 }
  unfolding step
  step_waits sai th off t q b h = ground arith

  step_lowers :
      (sai : F) (th : PolicyThresholds fl) (off : F) (t : StateTracker)
      → t.state ≢ quarantine
      → IsBelow th off t.state sai
      → t.below_count + 1 ≡ pos_part th.dwell_n
      → step fl sai th off t ≡ record t { state = lower t.state; below_count = 0 }
  unfolding step
  step_lowers sai th off t q b h = ground arith

  -- For an app that is not in quarantine: while fewer alerts in a row than the dwell time have
  -- called for less, the state is kept and the alerts are counted.
  run_waits :
      (th : PolicyThresholds fl) (off : F) (sais : List F) (t : StateTracker)
      → t.state ≢ quarantine
      → All (IsBelow th off t.state) sais
      → t.below_count + length sais < pos_part th.dwell_n
      → run fl th off sais t ≡ record t { below_count = t.below_count + length sais }
  unfolding run
  run_waits th off [] t q b h = ground arith
  run_waits th off (sai ∷ sais) t q b h = ground (
    arith,
    step_waits sai th off t q b.0,
    run_waits th off sais (record t { below_count = t.below_count + 1 }) q b.1,
  )

  -- For an app that is not in quarantine: the alert with which as many in a row as the dwell time
  -- have called for less lowers the state by one level and resets the count.
  pub run_lowers :
      (th : PolicyThresholds fl) (off : F) (sais : List F) (t : StateTracker)
      → t.state ≢ quarantine
      → All (IsBelow th off t.state) sais
      → 0 < length sais
      → t.below_count + length sais ≡ pos_part th.dwell_n
      → run fl th off sais t ≡ record t { state = lower t.state; below_count = 0 }
  unfolding run
  run_lowers th off [] t q b p h = absurd (omega arith)
  run_lowers th off (sai ∷ []) t q b p h = step_lowers sai th off t q b.0 (omega arith)
  run_lowers th off (sai ∷ y ∷ ys) t q b p h = ground (
    arith,
    step_waits sai th off t q b.0,
    run_lowers th off (y ∷ ys) (record t { below_count = t.below_count + 1 }) q b.1,
  )
