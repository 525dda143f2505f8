-- ===== src/Policies/SecurityAware/Flag.antt =====
-- The quarantine flag of an app agrees with its state of containment, and an app in quarantine is left
-- alone (securityAlert, feedback).
use konro.Base.{◌≡◌, ◌⊎◌, inl, inr, refl, sym, ◌∙◌, ap, Bool, true, false, ◌==◌, arith, Bool-cases}
use konro.Base.Int.{ℤ}
use konro.AppMapping.{CgroupFiles, AppMapping, Context, set_sai, set_quarantine}
use konro.AppMapping.Frame.{Keeps}
use konro.Effect.{M, ok}
use konro.Float.{Float}
use konro.SecState.{
  SecState, observe, throttle, restrict, quarantine, rank, is_quarantine, StateTracker, step,
}
use konro.Policies.SecurityAware.{
  SecurityAwarePolicy, feedback, restore, apply_observe, apply_throttle, apply_restrict,
  apply_quarantine, apply_state, tracked, security_alert,
}
use konro.Policies.Mapped.{Hides}
use konro.Policies.SecurityAware.Frame.{restore-Keeps, apply_throttle-Keeps, apply_restrict-Keeps}

module _ (fl : Float) (files : CgroupFiles) where
  abbrev C : Type 0
  C = Context fl files (SecurityAwarePolicy fl files)

  -- The flag that keeps feedback away is set exactly in quarantine.
  abbrev pub IsFlagged : AppMapping fl → Type 0
  IsFlagged m = m.quarantine ≡ is_quarantine m.sec_state.state

  abbrev pub flags : AppMapping fl → StateTracker × Bool
  flags m = (m.sec_state, m.quarantine)

  abbrev pub flags-Hides : Hides fl flags
  flags-Hides = record {
    pu_vec = λ v m. refl;
    cpu_max = λ n m. refl;
    last_feedback = λ n m. refl;
    baseline_pids = λ n m. refl;
  }

  pub Keeps-IsFlagged :
      (m : M C (Unit {0})) (d : C)
      → Keeps fl files (SecurityAwarePolicy fl files) flags m
      → IsFlagged d.mapping
      → IsFlagged (m d).1.mapping
  Keeps-IsFlagged m d k h =
      ap (λ p. p.1) (k.kept d) ∙ h ∙ ap (λ p. is_quarantine p.0.state) (sym (k.kept d))

  pub apply_state-IsFlagged :
      (s : SecState) (c : C)
      → c.mapping.sec_state.state ≡ s
      → (is_quarantine s ≡ true) ⊎ (c.mapping.quarantine ≡ false)
      → IsFlagged (apply_state fl files s c).1.mapping
  unfolding apply_state apply_observe apply_quarantine set_quarantine
  apply_state-IsFlagged observe c e h =
      let d : C = record c { mapping = record c.mapping { quarantine = false } } in
      Keeps-IsFlagged (restore fl files) d (restore-Keeps flags-Hides) (rw e refl)
  apply_state-IsFlagged throttle c e (inr h) =
      Keeps-IsFlagged (apply_throttle fl files) c (apply_throttle-Keeps flags-Hides)
        (rw (e, h) refl)
  apply_state-IsFlagged restrict c e (inr h) =
      Keeps-IsFlagged (apply_restrict fl files) c (apply_restrict-Keeps flags-Hides)
        (rw (e, h) refl)
  apply_state-IsFlagged throttle c e (inl h) = absurd (cc)
  apply_state-IsFlagged restrict c e (inl h) = absurd (cc)
  apply_state-IsFlagged quarantine c e h = rw e refl

  same_quarantine : (s t : SecState) → (rank s == rank t) ≡ true → is_quarantine s ≡ is_quarantine t
  same_quarantine s t h = ground arith

  stays :
      (sai : fl.F) (c : C)
      → is_quarantine c.mapping.sec_state.state ≡ true
      → tracked fl files sai c ≡ c.mapping.sec_state
  unfolding tracked step
  stays sai c h = rw h refl

  rank_refl : (s t : SecState) → t ≡ s → (rank t == rank s) ≡ true
  rank_refl s t e = rw e (ground arith)

  -- Where the flag agrees with the state, it does after an alert, however the alert ends.
  pub security_alert-IsFlagged :
      (sai : fl.F) (c : C)
      → IsFlagged c.mapping
      → IsFlagged (security_alert fl files sai c).1.mapping
  unfolding security_alert set_sai
  security_alert-IsFlagged sai c h =
      let s = c.mapping.sec_state.state in
      let d : C = record c { mapping = record c.mapping { sai = sai } } in
      let t = tracked fl files sai d in
      elim (Bool-cases (rank t.state == rank s)) [
        | inl e ↦ rw e (h ∙ sym (same_quarantine t.state s e))
        | inr e ↦ rw e (
            apply_state-IsFlagged t.state _ refl (elim (Bool-cases (is_quarantine s)) [
              | inl q ↦
                  let same = rank_refl s t.state (ap (λ x. x.state) (stays sai d q)) in ground arith
              | inr q ↦ inr (h ∙ q)
            ]))
      ]

  -- An app in quarantine whose flag agrees is left alone: its application's feedback changes nothing,
  -- and an alert changes the recorded SAI and nothing else; neither touches the files.
  pub quarantine_stays :
      (n : ℤ) (sai : fl.F) (c : C)
      → c.mapping.sec_state.state ≡ quarantine
      → IsFlagged c.mapping
      → (feedback fl files n c ≡ (ok tt, c))
        × (security_alert fl files sai c
            ≡ (ok tt, record c { mapping = record c.mapping { sai = sai } }))
  unfolding feedback security_alert set_sai tracked step
  quarantine_stays n sai c e h =
      let q : is_quarantine c.mapping.sec_state.state ≡ true = rw e refl in
      (
        rw (h ∙ q) refl,
        rw q (rw (rank_refl c.mapping.sec_state.state c.mapping.sec_state.state refl) refl),
      )
