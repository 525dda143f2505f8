-- ===== src/Policies/SecurityAware/Demands.antt =====
-- What a state of containment demands of an app and of the files of its cgroup, and that applyState
-- brings it about.
use konro.Base.{ℕ, ◌≡◌, ◌⊎◌, inl, inr, refl, true, false, [], ◌∷◌, ltb, if◌then◌else◌, Bool-cases}
use konro.Base.Int.{ℤ, pos, ltb_ℤ, to_int, to_short, to_uint64}
use konro.App.{App}
use konro.Cpuset.{CpusetVector}
use konro.AppMapping.{
  numeric_max, CgroupFiles, Context, set_pu_vector, set_cpu_max_cached, set_max_pids,
  get_current_pids, set_quarantine,
}
use konro.AppMapping.Writes.{
  bind-Returns, then-Returns, get_current_pids-Returns, on_files-Returns, set_cpu_max-Returns,
  set_pu_vector-Returns, set_max_pids-Returns,
}
use konro.Effect.{ok, Returns, pure}
use konro.Float.{Float}
use konro.SecState.{SecState, observe, throttle, restrict, quarantine}
use konro.Policies.SecurityAware.{
  SecurityAwarePolicy, restored_pu, restore, apply_observe, throttle_band, apply_throttle, pids_cap,
  apply_restrict, apply_quarantine, apply_state,
}

module _ (fl : Float) (files : CgroupFiles) where
  abbrev C : Type 0
  C = Context fl files (SecurityAwarePolicy fl files)

  -- The limit on the number of processes: the baseline if it is above 0, else the number of processes
  -- that was read, if the first reading is above 0, else 1; with the files behind the readings.
  pub data IsCap (app : App) (baseline : ℤ) (w : files.World) : ℤ → files.World → Type 0 where
    at_baseline : ltb_ℤ (pos 0) baseline ≡ true → IsCap app baseline w baseline w
    at_count :
        (n k : ℕ) (v x : files.World)
        → ltb_ℤ (pos 0) baseline ≡ false
        → files.get_pids_current app w ≡ (ok n, v)
        → ltb_ℤ (pos 0) (to_int (pos n)) ≡ true
        → files.get_pids_current app v ≡ (ok k, x)
        → IsCap app baseline w (to_int (pos k)) x
    at_one :
        (n : ℕ) (v : files.World)
        → ltb_ℤ (pos 0) baseline ≡ false
        → files.get_pids_current app w ≡ (ok n, v)
        → ltb_ℤ (pos 0) (to_int (pos n)) ≡ false
        → IsCap app baseline w (pos 1) v

  -- What each state demands of the mapping of an app and of the files, which were in the given state
  -- before: OBSERVE that it is not flagged, that cpu.max and pids.max were opened up and, on a machine
  -- with PUs, cpuset.cpus set to its own PU; THROTTLE that cpu.max was set to the band of its level;
  -- RESTRICT that cpu.max was set to 20, cpuset.cpus to PU 0 and pids.max to the limit of above;
  -- QUARANTINE that it is flagged and cgroup.freeze was set.
  unfoldable pub Demands : SecState → files.World → C → Type 0
  Demands observe w d =
      (d.mapping.quarantine ≡ false)
      × (d.mapping.cpu_max ≡ numeric_max)
      × (v : files.World) × (files.set_cpu_max numeric_max d.mapping.app w ≡ (ok tt, v))
      × (x : files.World) × (files.set_pids_max numeric_max d.mapping.app v ≡ (ok tt, x))
      × (((ltb 0 d.own.num_pus ≡ false) × (d.world ≡ x))
          ⊎ (let pu = to_short (restored_pu fl files d.mapping.app.pid d.own.assigned_pu) in
              (d.mapping.pu_vec ≡ ((pu, pu) ∷ []))
              × (files.set_cpus ((pu, pu) ∷ []) d.mapping.app x ≡ (ok tt, d.world))))
  Demands throttle w d =
      let band = to_uint64 (throttle_band fl files d.own.num_pus d.mapping.security_level) in
      (d.mapping.cpu_max ≡ band) × (files.set_cpu_max band d.mapping.app w ≡ (ok tt, d.world))
  Demands restrict w d =
      (d.mapping.cpu_max ≡ 20)
      × (d.mapping.pu_vec ≡ ((pos 0, pos 0) ∷ []))
      × (v : files.World) × (files.set_cpu_max 20 d.mapping.app w ≡ (ok tt, v))
      × (x : files.World) × (files.set_cpus ((pos 0, pos 0) ∷ []) d.mapping.app v ≡ (ok tt, x))
      × (cap : ℤ) × (y : files.World) × IsCap d.mapping.app d.mapping.baseline_pids x cap y
      × (files.set_pids_max (to_uint64 cap) d.mapping.app y ≡ (ok tt, d.world))
  Demands quarantine w d =
      (d.mapping.quarantine ≡ true) × (files.set_freeze true d.mapping.app w ≡ (ok tt, d.world))

  abbrev pub After : SecState → files.World → Unit {0} → C → Type 0
  After s w u d = Demands s w d

  home : C → CpusetVector
  home c =
      let pu = to_short (restored_pu fl files c.mapping.app.pid c.own.assigned_pu) in (pu, pu) ∷ []

  home-Demands :
      (w v : files.World) (c : C)
      → c.mapping.quarantine ≡ false
      → c.mapping.cpu_max ≡ numeric_max
      → files.set_cpu_max numeric_max c.mapping.app w ≡ (ok tt, v)
      → files.set_pids_max numeric_max c.mapping.app v ≡ (ok tt, c.world)
      → Returns
          (After observe w)
          ((if ltb 0 c.own.num_pus then set_pu_vector fl files (home c) else pure tt) c)
  unfolding Demands Returns home
  home-Demands w v c h k i j = elim (Bool-cases (ltb 0 c.own.num_pus)) [
    | inl e ↦ rw e (
        set_pu_vector-Returns (After observe w) c (home c)
          (λ x l. (h, k, v, i, c.world, j, inr (refl, l))))
    | inr e ↦ rw e (h, k, v, i, c.world, j, inl (e, refl))
  ]

  restore-Demands :
      (c : C) → c.mapping.quarantine ≡ false → Returns (After observe c.world) (restore fl files c)
  unfolding restore home
  restore-Demands c h =
      let P = After observe c.world in
      then-Returns P (set_cpu_max_cached fl files numeric_max) _ c (
        set_cpu_max-Returns _ c numeric_max (λ w i.
          let d : C = record c {
            mapping = record c.mapping { cpu_max = numeric_max };
            world = w;
          } in
          then-Returns P (set_max_pids fl files numeric_max) _ d (
            set_max_pids-Returns _ d numeric_max
              (λ v j. home-Demands c.world w (record d { world = v }) h refl i j))))

  pids_cap-Returns :
      (P : ℤ → C → Type 0) (c : C)
      → ((cap : ℤ) (w : files.World)
          → IsCap c.mapping.app c.mapping.baseline_pids c.world cap w
          → P cap (record c { world = w }))
      → Returns P (pids_cap fl files c)
  unfolding pids_cap Returns
  pids_cap-Returns P c h = elim (Bool-cases (ltb_ℤ (pos 0) c.mapping.baseline_pids)) [
    | inl e ↦ rw e (h c.mapping.baseline_pids c.world (at_baseline e))
    | inr e ↦ rw e (
        bind-Returns P (get_current_pids fl files) _ c (
          get_current_pids-Returns _ c (λ n v i.
            elim (Bool-cases (ltb_ℤ (pos 0) (to_int (pos n)))) [
              | inl f ↦ rw f (
                  get_current_pids-Returns P (record c { world = v })
                    (λ k x j. h (to_int (pos k)) x (at_count n k v x e i f j)))
              | inr f ↦ rw f (h (pos 1) v (at_one n v e i f))
            ])))
  ]

  restrict-Demands : (c : C) → Returns (After restrict c.world) (apply_restrict fl files c)
  unfolding apply_restrict Demands
  restrict-Demands c =
      let P = After restrict c.world in
      let zero_pu = (pos 0, pos 0) ∷ [] in
      then-Returns P (set_cpu_max_cached fl files 20) _ c (
        set_cpu_max-Returns _ c 20 (λ w i.
          let d : C = record c { mapping = record c.mapping { cpu_max = 20 }; world = w } in
          then-Returns P (set_pu_vector fl files zero_pu) _ d (
            set_pu_vector-Returns _ d zero_pu (λ v j.
              let e : C = record d {
                mapping = record d.mapping { pu_vec = (pos 0, pos 0) ∷ [] };
                world = v;
              } in
              bind-Returns P (pids_cap fl files) _ e (
                pids_cap-Returns _ e (λ cap x k.
                  set_max_pids-Returns P (record e { world = x }) (to_uint64 cap)
                    (λ y l. (refl, refl, w, i, v, j, cap, x, k, l))))))))

  pub apply_state-Demands :
      (s : SecState) (c : C) → Returns (After s c.world) (apply_state fl files s c)
  unfolding apply_state apply_observe apply_throttle apply_quarantine set_quarantine Demands
  apply_state-Demands observe c =
      restore-Demands (record c { mapping = record c.mapping { quarantine = false } }) refl
  apply_state-Demands throttle c =
      set_cpu_max-Returns (After throttle c.world) c _ (λ w h. (refl, h))
  apply_state-Demands restrict c = restrict-Demands c
  apply_state-Demands quarantine c =
      on_files-Returns (After quarantine c.world) (files.set_freeze true) _ (λ u w h. (refl, h))
