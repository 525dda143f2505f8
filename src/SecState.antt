-- ===== src/SecState.antt =====
-- rm/policymanager/policies/secstate.h and secstate.cpp: the containment state machine of one app.
pub mod Escalation
pub mod Dwell
use konro.Base.{ℕ, ◌+◌, Bool, true, false, List, [], ◌∷◌, ltb, if◌then◌else◌}
use konro.Base.Int.{ℤ, pos, leb_ℤ}
use konro.Float.{Float}

pub data SecState : Type 0 where
  observe throttle restrict quarantine : SecState

-- static_cast<int> of the enumeration
abbrev pub rank : SecState → ℕ
rank observe = 0
rank throttle = 1
rank restrict = 2
rank quarantine = 3

-- The state one below. No state is below `observe`: `step` lowers only a state that is above
-- another one.
abbrev pub lower : SecState → SecState
lower observe = observe
lower throttle = observe
lower restrict = throttle
lower quarantine = restrict

abbrev pub is_quarantine : SecState → Bool
is_quarantine quarantine = true
is_quarantine observe = false
is_quarantine throttle = false
is_quarantine restrict = false

pub record StateTracker : Type 0 where
  pub state : SecState
  pub below_count : ℕ

-- A new tracker, and what `clear` leaves.
abbrev pub cleared : StateTracker
cleared = record { state = observe; below_count = 0 }

unfoldable pub clear : StateTracker → StateTracker
clear t = record t { state = observe; below_count = 0 }

module _ (fl : Float) where
  open fl use {F, add, fge}

  pub record PolicyThresholds : Type 0 where
    pub t1 : F
    pub t2 : F
    pub t3 : F
    pub margin : F
    pub dwell_n : ℤ

  unfoldable pub target : F → PolicyThresholds → F → SecState
  target sai th off =
      if fge sai (add th.t3 off)
      then quarantine
      else if fge sai (add th.t2 off)
      then restrict
      else if fge sai (add th.t1 off)
      then throttle
      else observe

  -- The branches of `step` on the state that the SAI calls for. The method returns the new `state`.
  unfoldable pub advance : SecState → ℤ → StateTracker → StateTracker
  advance tgt dwell_n t =
      if ltb (rank t.state) (rank tgt)
      then record t { state = tgt; below_count = 0 }
      else if ltb (rank tgt) (rank t.state)
      then (if leb_ℤ dwell_n (pos (t.below_count + 1))
          then record t { state = lower t.state; below_count = 0 }
          else record t { below_count = t.below_count + 1 })
      else record t { below_count = 0 }

  unfoldable pub step : F → PolicyThresholds → F → StateTracker → StateTracker
  unfolding target advance
  step sai th tol_offset t =
      if is_quarantine t.state then t else advance (target sai th tol_offset) th.dwell_n t

  -- One alert after the other, at the same thresholds.
  unfoldable pub run : PolicyThresholds → F → List F → StateTracker → StateTracker
  run th off [] t = t
  run th off (sai ∷ sais) t = run th off sais (step sai th off t)
