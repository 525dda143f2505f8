-- ===== src/Policies/SecurityAware/Frozen.antt =====
-- From an alert down to cgroup.freeze: SecurityAwarePolicy in a PolicyManager, over the cgroups.
use Prim.Native.String.{String}
use konro.Base.{◌≡◌, ◌≢◌, ◌∙◌, refl, sym, ap, true, false, some, List, [], ◌∷◌, ltb, ◌==◌, arith}
use konro.Base.OrderedSet.{find}
use konro.App.{App}
use konro.AppMapping.{CgroupFiles, AppMapping, Context, set_sai, set_quarantine}
use konro.Cgroup.{CgroupConfig, make_path, konro_app_dir, do_not_move}
use konro.Cgroup.Controllers.{cgroup_files}
use konro.Cgroup.Files.{read-set_freeze}
use konro.Effect.{ok, exception, undefined}
use konro.Float.{Float}
use konro.Os.{Os, done, not_written}
use konro.PolicyManager.{
  SecurityFactors, mapping_key, Done, PolicyManager, process_security_event, returned,
}
use konro.PolicyManager.Tracking.{process_security_event-find}
use konro.Policies.SecurityAware.{
  SecurityAwarePolicy, tol_offset, apply_state, apply_quarantine, security_alert, tracked,
}
use konro.Policies.SecurityAware.Instance.{security_aware_policy_instance}
use konro.SecState.{
  SecState, observe, throttle, restrict, quarantine, is_quarantine, rank, StateTracker,
  PolicyThresholds, target, advance, step,
}
use konro.Text.{codes}

abbrev pub quarantined : StateTracker
quarantined = record { state = quarantine; below_count = 0 }

-- What an alert leaves of the mapping of an app that it puts into QUARANTINE.
abbrev pub contained : {fl : Float} → fl.F → AppMapping fl → AppMapping fl
contained sai m = record m { sai = sai; sec_state = quarantined; quarantine = true }

below_quarantine :
    (s : SecState)
    → is_quarantine s ≡ false
    → (ltb (rank s) (rank quarantine) ≡ true) × ((rank quarantine == rank s) ≡ false)
below_quarantine observe h = (ground arith, ground arith)
below_quarantine throttle h = (ground arith, ground arith)
below_quarantine restrict h = (ground arith, ground arith)
below_quarantine quarantine h = absurd cc

module _ (fl : Float) where
  step-quarantined :
      (sai : fl.F) (th : PolicyThresholds fl) (off : fl.F) (t : StateTracker)
      → is_quarantine t.state ≡ false
      → fl.fge sai (fl.add th.t3 off) ≡ true
      → step fl sai th off t ≡ quarantined
  unfolding step target advance
  step-quarantined sai th off t h k = rw (h, k, (below_quarantine t.state h).0) refl

  module _ (files : CgroupFiles) where
    -- The alert does nothing but the write of cgroup.freeze.
    security_alert-contained :
        (sai : fl.F) (c : Context fl files (SecurityAwarePolicy fl files))
        → is_quarantine c.mapping.sec_state.state ≡ false
        → fl.fge sai (fl.add c.own.thresholds.t3 (tol_offset fl files c.mapping.security_level))
          ≡ true
        → security_alert fl files sai c ≡ (
          (files.set_freeze true c.mapping.app c.world).0,
          record c {
            mapping = contained sai c.mapping;
            world = (files.set_freeze true c.mapping.app c.world).1;
          },
        )
    unfolding security_alert set_sai tracked apply_state apply_quarantine set_quarantine
    security_alert-contained sai c h k =
        let off = tol_offset fl files c.mapping.security_level in
        rw
          (
            step-quarantined sai c.own.thresholds off c.mapping.sec_state h k,
            (below_quarantine c.mapping.sec_state.state h).1,
          )
          refl

module _ (fl : Float) (os : Os) (config : CgroupConfig) where
  abbrev files : CgroupFiles
  files = cgroup_files os config

  returned_ok :
      (apps : List (AppMapping fl)) (r : Done fl (SecurityAwarePolicy fl files × os.World))
      (pm : PolicyManager fl (security_aware_policy_instance fl files))
      → returned fl (security_aware_policy_instance fl files) apps r ≡ some pm
      → r.0 ≡ ok tt
  unfolding returned
  returned_ok apps (ok u, m, s) pm h = refl
  returned_ok apps (exception, m, s) pm h = absurd cc
  returned_ok apps (undefined, m, s) pm h = absurd cc

  -- Where the kernel takes a 1 that is written to cgroup.freeze in the app's directory, and gives it back:
  -- a security event that the manager handles, for a tracked app that has a directory of its own and is not
  -- yet in QUARANTINE, with a SAI of T3 or more above the tolerance of its level, leaves its mapping in
  -- QUARANTINE with the flag set and nothing else changed but the SAI, and that file holding 1.
  pub process_security_event-frozen :
      (app : App) (sai : fl.F) (factors : SecurityFactors fl) (labels : String) (m : AppMapping fl)
      (pm pm' : PolicyManager fl (security_aware_policy_instance fl files))
      → ((w : os.World)
          → (os.write
              (make_path (konro_app_dir os config m.app.pid) (codes "cgroup.freeze"))
              (codes "1")
              w).0
            ≢ not_written)
      → ((w v : os.World)
          → os.write
              (make_path (konro_app_dir os config m.app.pid) (codes "cgroup.freeze"))
              (codes "1")
              w
            ≡ (done, v)
          → os.read_lines (make_path (konro_app_dir os config m.app.pid) (codes "cgroup.freeze")) v
            ≡ (some (codes "1" ∷ []), v))
      → find (mapping_key fl) app.pid pm.apps ≡ some m
      → do_not_move os config m.app.app_type ≡ false
      → is_quarantine m.sec_state.state ≡ false
      → fl.fge sai (fl.add pm.policy_state.0.thresholds.t3 (tol_offset fl files m.security_level))
        ≡ true
      → process_security_event fl
          (security_aware_policy_instance fl files)
          app
          sai
          factors
          labels
          pm
        ≡ some pm'
      → (find (mapping_key fl) app.pid pm'.apps ≡ some (contained sai m))
        × (os.read_lines
              (make_path (konro_app_dir os config m.app.pid) (codes "cgroup.freeze"))
              pm'.policy_state.1
            ≡ (some (codes "1" ∷ []), pm'.policy_state.1))
  unfolding process_security_event
  process_security_event-frozen app sai factors labels m pm pm' accepted kept f moves q high h =
      let policy = security_aware_policy_instance fl files in
      let c : Context fl files (SecurityAwarePolicy fl files) = record {
        mapping = record m { sai = sai };
        own = pm.policy_state.0;
        world = pm.policy_state.1;
      } in
      let e = security_alert-contained fl files sai c q high in
      let found = process_security_event-find fl policy app sai factors labels m pm pm' f h in
      let h' = rw (f, process_security_event) at h in
      let done_lem = returned_ok pm.apps _ pm' h' in
      let r = files.set_freeze true m.app pm.policy_state.1 in
      let fine : r.0 ≡ ok tt = sym (ap (λ x. x.0) e) ∙ done_lem in
      let world : pm'.policy_state.1 ≡ r.1 = ap (λ s. s.1) found.1 ∙ ap (λ x. x.1.world) e in
      (
        found.0 ∙ ap (λ x. some x.1.mapping) e,
        rw world (
            read-set_freeze os config m.app moves pm.policy_state.1 r.1 accepted kept
              (ap (λ x. (x, r.1)) fine)),
      )
