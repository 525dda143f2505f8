-- ===== src/SecState/Escalation.antt =====
-- How far one alert moves the containment state, and what quarantine needs.
use konro.Base.{
  ◌+◌, ◌≤◌, ◌<◌, ◌≡◌, ◌≢◌, ◌⊎◌, inl, inr, refl, true, List, [], ◌∷◌, arith, Bool-cases,
}
use konro.Float.{Float}
use konro.SecState.{quarantine, rank, StateTracker, PolicyThresholds, target, step, run}

module _ (fl : Float) where
  open fl use {F, add, fge}

  -- After any alert the app is contained at least as strictly as the alert calls for, and at most
  -- one level less strictly than before.
  pub step_bounds :
      (sai : F) (th : PolicyThresholds fl) (off : F) (t : StateTracker)
      → (rank (target fl sai th off) ≤ rank (step fl sai th off t).state)
        × (rank t.state ≤ rank (step fl sai th off t).state + 1)
  unfolding step
  step_bounds sai th off t = ground arith

  -- For an app that is not in quarantine: an alert that calls for a higher state than the present
  -- one brings that state about at once.
  step_escalates :
      (sai : F) (th : PolicyThresholds fl) (off : F) (t : StateTracker)
      → t.state ≢ quarantine
      → rank t.state < rank (target fl sai th off)
      → (step fl sai th off t).state ≡ target fl sai th off
  unfolding step
  step_escalates sai th off t h lt = ground arith

  -- No sequence of alerts changes the tracker of an app in quarantine.
  run_quarantine :
      (th : PolicyThresholds fl) (off : F) (sais : List F) (t : StateTracker)
      → t.state ≡ quarantine
      → run fl th off sais t ≡ t
  unfolding run step
  run_quarantine th off [] t h = refl
  run_quarantine th off (sai ∷ sais) t h = ground (arith, run_quarantine th off sais t h)

  -- An alert among the list reaches the quarantine threshold.
  abbrev pub Reaches : PolicyThresholds fl → F → List F → Type 0
  Reaches th off [] = ⊥
  Reaches th off (sai ∷ sais) = (fge sai (add th.t3 off) ≡ true) ⊎ Reaches th off sais

  step_quarantine :
      (sai : F) (th : PolicyThresholds fl) (off : F) (t : StateTracker)
      → t.state ≢ quarantine
      → ((step fl sai th off t).state ≢ quarantine) ⊎ (fge sai (add th.t3 off) ≡ true)
  unfolding step
  step_quarantine sai th off t h = elim (Bool-cases (fge sai (add th.t3 off))) [
    | inl e ↦ inr e
    | inr e ↦ inl (ground arith)
  ]

  -- An app that was not in quarantine, and is after a sequence of alerts, had an alert among them
  -- that reached the third threshold, raised by the app's tolerance.
  pub run-Reaches :
      (th : PolicyThresholds fl) (off : F) (sais : List F) (t : StateTracker)
      → t.state ≢ quarantine
      → (run fl th off sais t).state ≡ quarantine
      → Reaches th off sais
  unfolding run
  run-Reaches th off [] t h e = h e
  run-Reaches th off (sai ∷ sais) t h e = elim (step_quarantine sai th off t h) [
    | inl k ↦ inr (run-Reaches th off sais (step fl sai th off t) k e)
    | inr r ↦ inl r
  ]
