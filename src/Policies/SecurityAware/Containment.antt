-- ===== src/Policies/SecurityAware/Containment.antt =====
-- What alerts and the operator's clearance leave of an app (securityAlert, clearApp).
use konro.Base.{◌≡◌, ◌⊎◌, inl, inr, refl, sym, ap, true, false, ◌==◌, Bool-cases}
use konro.App.{App}
use konro.AppMapping.{CgroupFiles, AppMapping, Context, on_files, set_sai, set_quarantine}
use konro.AppMapping.Frame.{kept-Returns}
use konro.AppMapping.Writes.{then-Returns, on_files-Returns}
use konro.Effect.{ok, Returns, Returns-both, Returns-map}
use konro.Float.{Float}
use konro.SecState.{SecState, observe, rank, StateTracker, clear, cleared}
use konro.Policies.SecurityAware.{
  SecurityAwarePolicy, apply_state, tracked, security_alert, clear_app,
}
use konro.Policies.SecurityAware.Demands.{Demands, After, apply_state-Demands}
use konro.Policies.Mapped.{Hides}
use konro.Policies.SecurityAware.Frame.{apply_state-Keeps}

module _ (fl : Float) (files : CgroupFiles) where
  abbrev C : Type 0
  C = Context fl files (SecurityAwarePolicy fl files)

  abbrev history : AppMapping fl → App × StateTracker × fl.F
  history m = (m.app, m.sec_state, m.sai)

  abbrev history-Hides : Hides fl history
  history-Hides = record {
    pu_vec = λ v m. refl;
    cpu_max = λ n m. refl;
    last_feedback = λ n m. refl;
    baseline_pids = λ n m. refl;
  }

  -- What an applied state leaves: the app, the tracker and the SAI as they were, and what it demands.
  applied :
      (s : SecState) (c : C)
      → Returns
          (λ u d. (history d.mapping ≡ history c.mapping) × Demands fl files s c.world d)
          (apply_state fl files s c)
  applied s c =
      Returns-both (λ u d. history d.mapping ≡ history c.mapping) (After fl files s c.world)
        (apply_state fl files s c)
        (kept-Returns fl files (SecurityAwarePolicy fl files) history (history c.mapping)
          (apply_state fl files s c)
          ((apply_state-Keeps {view = history} history-Hides (λ q m. refl) s).kept c))
        (apply_state-Demands fl files s c)

  -- For an alert in a context whose app was in the first of the states.
  abbrev IsContained : SecState → StateTracker → C → C → Type 0
  IsContained s t c d =
      (d.mapping.app ≡ c.mapping.app)
      × (d.mapping.sec_state ≡ t)
      × ((((rank d.mapping.sec_state.state == rank s) ≡ true) × (d.world ≡ c.world))
          ⊎ Demands fl files d.mapping.sec_state.state c.world d)

  Demands-of :
      (s t : SecState) (w : files.World) (x : C)
      → s ≡ t
      → Demands fl files s w x
      → Demands fl files t w x
  Demands-of s t w x e p = rw e at p

  alert-IsContained :
      (sai : fl.F) (c : C)
      → Returns
          (λ u d. IsContained c.mapping.sec_state.state (tracked fl files sai c) c d)
          (security_alert fl files sai c)
  unfolding security_alert set_sai tracked Returns
  alert-IsContained sai c =
      let s = c.mapping.sec_state.state in
      let d : C = record c { mapping = record c.mapping { sai = sai } } in
      let t = tracked fl files sai c in
      let e : C = record d { mapping = record d.mapping { sec_state = t } } in
      elim (Bool-cases (rank t.state == rank s)) [
        | inl h ↦ rw h (refl, refl, inl (h, refl))
        | inr h ↦ rw h (
            Returns-map
              (λ u x. (history x.mapping ≡ history e.mapping) × Demands fl files t.state c.world x)
              (λ u x. IsContained s t c x) (apply_state fl files t.state e) (applied t.state e)
              (λ u x p.
                let q : x.mapping.sec_state ≡ t = ap (λ y. y.1) p.0 in
                (
                  ap (λ y. y.0) p.0,
                  q,
                  inr (
                      Demands-of t.state x.mapping.sec_state.state c.world x
                        (sym (ap (λ y. y.state) q)) p.1),
                )))
      ]

  -- An alert that returns leaves the tracker that `step` computes from the SAI, the thresholds and
  -- the tolerance of the app's level. Either the state is the former one and no file was written, or
  -- the mapping has what the new state demands, and the writes that it demands, which all succeeded in
  -- this order, lead from the files before the alert to those behind it: cpu.max, pids.max and, on a
  -- machine with PUs, cpuset.cpus for OBSERVE; cpu.max for THROTTLE; cpu.max, cpuset.cpus and, behind
  -- the readings of the number of processes, pids.max for RESTRICT; cgroup.freeze for QUARANTINE.
  pub security_alert-Demands :
      (sai : fl.F) (c d : C)
      → security_alert fl files sai c ≡ (ok tt, d)
      → (d.mapping.app ≡ c.mapping.app)
        × (d.mapping.sec_state ≡ tracked fl files sai c)
        × ((((rank d.mapping.sec_state.state == rank c.mapping.sec_state.state) ≡ true)
              × (d.world ≡ c.world))
            ⊎ Demands fl files d.mapping.sec_state.state c.world d)
  unfolding Returns
  security_alert-Demands sai c d h = rw h at (alert-IsContained sai c)

  -- What the clearance leaves, the files between the thaw and the rest among it.
  abbrev IsCleared : C → C → Type 0
  IsCleared c d =
      (d.mapping.app ≡ c.mapping.app)
      × (d.mapping.sec_state ≡ clear c.mapping.sec_state)
      × (d.mapping.sai ≡ fl.literal 0 1)
      × (w : files.World) × (files.set_freeze false c.mapping.app c.world ≡ (ok tt, w))
      × Demands fl files observe w d

  clear_app-IsCleared : (c : C) → Returns (λ u d. IsCleared c d) (clear_app fl files c)
  unfolding clear_app set_quarantine set_sai
  clear_app-IsCleared c =
      let e : C = record c {
        mapping = record c.mapping { sec_state = clear c.mapping.sec_state };
      } in
      then-Returns _ (on_files fl files (files.set_freeze false)) _ e (
        on_files-Returns _ (files.set_freeze false) e (λ u w h.
          let f : C = record e {
            mapping = record e.mapping { quarantine = false; sai = fl.literal 0 1 };
            world = w;
          } in
          Returns-map
            (λ u x. (history x.mapping ≡ history f.mapping) × Demands fl files observe w x)
            (λ u x. IsCleared c x) (apply_state fl files observe f) (applied observe f)
            (λ u x p. (ap (λ y. y.0) p.0, ap (λ y. y.1) p.0, ap (λ y. y.2) p.0, w, h, p.1))))

  -- The operator's clearance, where it returns, has written a 0 to cgroup.freeze and then opened up
  -- cpu.max and pids.max. It leaves the app observed, its count of low alerts and its SAI at 0, out of
  -- quarantine and with its whole cpu; on a machine with PUs, also on the PU that was recorded for it,
  -- or PU 0.
  pub clear_app-Demands :
      (c d : C)
      → clear_app fl files c ≡ (ok tt, d)
      → (d.mapping.app ≡ c.mapping.app)
        × (d.mapping.sec_state ≡ cleared)
        × (d.mapping.sai ≡ fl.literal 0 1)
        × (w : files.World) × (files.set_freeze false c.mapping.app c.world ≡ (ok tt, w))
        × Demands fl files observe w d
  unfolding Returns clear
  clear_app-Demands c d h = rw h at (clear_app-IsCleared c)
