-- ===== src/Policies/SecurityAware/Frame.antt =====
-- What the operations of the policy leave alone, on every exit.
use konro.Base.{◌≡◌, Bool, true, false}
use konro.Base.Int.{ℤ, pos, to_uint64}
use konro.Base.OrderedSet.{erase}
use konro.Cpuset.{to_vector}
use konro.AppMapping.{
  numeric_max, CgroupFiles, AppMapping, set_quarantine, set_baseline_pids, set_max_pids,
}
use konro.AppMapping.Frame.{
  Keeps, bind-Keeps, then-Keeps, if-Keeps, attempt-Keeps, pure-Keeps, on_files-Keeps, update-Keeps,
  own-Keeps, get-Keeps, in_bounds-Keeps, set_max_pids-Keeps, get_current_pids-Keeps,
  set_pu_vector-Keeps, get_pu_vector-Keeps, set_cpu_max-Keeps,
}
use konro.Effect.{◌>>=◌}
use konro.Float.{Float}
use konro.Policies.Quota.Frame.{increase_cpu_quota-Keeps, decrease_cpu_quota-Keeps}
use konro.Policies.Counters.{release_all}
use konro.Policies.Mapped.{Hides, set_last_feedback-Keeps}
use konro.SecState.{SecState, observe, throttle, restrict, quarantine}
use konro.Policies.SecurityAware.{
  is_high, SecurityAwarePolicy, pid_key, assign, initial_pu, count_app, place, add_app, remove_app,
  expand_to_pu_1, feedback_low, feedback_high, react, feedback, restore, apply_observe,
  apply_throttle, pids_cap, apply_restrict, apply_quarantine, apply_state,
}

module _ {fl : Float} {files : CgroupFiles} {B : Type 0} {view : AppMapping fl → B} where
  pids_cap-Keeps : Keeps fl files (SecurityAwarePolicy fl files) view (pids_cap fl files)
  unfolding pids_cap
  pids_cap-Keeps = bind-Keeps get-Keeps (λ c. if-Keeps _ (pure-Keeps c.mapping.baseline_pids) (
      bind-Keeps get_current_pids-Keeps
        (λ n. if-Keeps _ get_current_pids-Keeps (pure-Keeps (pos 1)))))

  pub cap-Keeps :
      Keeps fl files
        (SecurityAwarePolicy fl files)
        view
        (pids_cap fl files >>= (λ cap. set_max_pids fl files (to_uint64 cap)))
  cap-Keeps = bind-Keeps pids_cap-Keeps (λ cap. set_max_pids-Keeps (to_uint64 cap))

module _ {fl : Float} {files : CgroupFiles} {B : Type 0} {view : AppMapping fl → B}
    (hides : Hides fl view) where
  pub count_app-Keeps :
      (pu : ℤ) → Keeps fl files (SecurityAwarePolicy fl files) view (count_app fl files pu)
  unfolding count_app
  count_app-Keeps pu = bind-Keeps get-Keeps (λ c.
      bind-Keeps (in_bounds-Keeps _)
        (λ counters. own-Keeps (λ d. record d.own { apps_on_pu = counters })))

  pub expand_to_pu_1-Keeps :
      Keeps fl files (SecurityAwarePolicy fl files) view (expand_to_pu_1 fl files)
  unfolding expand_to_pu_1
  expand_to_pu_1-Keeps = bind-Keeps (get_pu_vector-Keeps hides.pu_vec) (λ vec.
      if-Keeps _
        (bind-Keeps (in_bounds-Keeps _) (λ added.
          then-Keeps (set_pu_vector-Keeps hides.pu_vec added.0) (
            then-Keeps (count_app-Keeps (pos 1))
              (bind-Keeps (increase_cpu_quota-Keeps hides.cpu_max _) (λ done. pure-Keeps tt)))))
        (pure-Keeps tt))

  pub feedback-Keeps :
      (n : ℤ) → Keeps fl files (SecurityAwarePolicy fl files) view (feedback fl files n)
  unfolding feedback react feedback_low feedback_high
  feedback-Keeps n = bind-Keeps get-Keeps (λ c. if-Keeps c.mapping.quarantine (pure-Keeps tt) (
      if-Keeps _
        (bind-Keeps (increase_cpu_quota-Keeps hides.cpu_max _) (λ done. bind-Keeps get-Keeps (λ d.
          if-Keeps done (pure-Keeps tt) (
            then-Keeps
              (if-Keeps (is_high d.mapping.security_level) expand_to_pu_1-Keeps (pure-Keeps tt))
              (set_last_feedback-Keeps n hides)))))
        (if-Keeps _
          (bind-Keeps (decrease_cpu_quota-Keeps hides.cpu_max _)
            (λ done. if-Keeps done (pure-Keeps tt) (set_last_feedback-Keeps n hides)))
          (set_last_feedback-Keeps n hides))))

  pub restore-Keeps : Keeps fl files (SecurityAwarePolicy fl files) view (restore fl files)
  unfolding restore
  restore-Keeps = then-Keeps (set_cpu_max-Keeps hides.cpu_max numeric_max) (
      then-Keeps (set_max_pids-Keeps numeric_max) (
        bind-Keeps get-Keeps
          (λ c. if-Keeps _ (set_pu_vector-Keeps hides.pu_vec _) (pure-Keeps tt))))

  apply_observe-Keeps :
      ((q : Bool) (m : AppMapping fl) → view (record m { quarantine = q }) ≡ view m)
      → Keeps fl files (SecurityAwarePolicy fl files) view (apply_observe fl files)
  unfolding apply_observe set_quarantine
  apply_observe-Keeps h = then-Keeps (update-Keeps _ (h false)) restore-Keeps

  pub apply_throttle-Keeps :
      Keeps fl files (SecurityAwarePolicy fl files) view (apply_throttle fl files)
  unfolding apply_throttle
  apply_throttle-Keeps = bind-Keeps get-Keeps (λ c. set_cpu_max-Keeps hides.cpu_max _)

  pub apply_restrict-Keeps :
      Keeps fl files (SecurityAwarePolicy fl files) view (apply_restrict fl files)
  unfolding apply_restrict
  apply_restrict-Keeps =
      then-Keeps (set_cpu_max-Keeps hides.cpu_max 20)
        (then-Keeps (set_pu_vector-Keeps hides.pu_vec _) cap-Keeps)

  apply_quarantine-Keeps :
      ((q : Bool) (m : AppMapping fl) → view (record m { quarantine = q }) ≡ view m)
      → Keeps fl files (SecurityAwarePolicy fl files) view (apply_quarantine fl files)
  unfolding apply_quarantine set_quarantine
  apply_quarantine-Keeps h =
      then-Keeps (update-Keeps _ (h true)) (on_files-Keeps (files.set_freeze true))

  pub apply_state-Keeps :
      ((q : Bool) (m : AppMapping fl) → view (record m { quarantine = q }) ≡ view m)
      → (s : SecState) → Keeps fl files (SecurityAwarePolicy fl files) view (apply_state fl files s)
  unfolding apply_state
  apply_state-Keeps h observe = apply_observe-Keeps h
  apply_state-Keeps h throttle = apply_throttle-Keeps
  apply_state-Keeps h restrict = apply_restrict-Keeps
  apply_state-Keeps h quarantine = apply_quarantine-Keeps h

  place-Keeps : Keeps fl files (SecurityAwarePolicy fl files) view (place fl files)
  unfolding place set_baseline_pids
  place-Keeps = bind-Keeps get-Keeps (λ c. then-Keeps (set_pu_vector-Keeps hides.pu_vec _) (
      then-Keeps (count_app-Keeps _) (
        then-Keeps
          (own-Keeps (λ d. record d.own {
            assigned_pu =
                assign fl files c.mapping.app.pid
                  (pos (initial_pu fl files c.mapping.security_level c.own.apps_on_pu))
                  d.own.assigned_pu;
          }))
          (then-Keeps (set_cpu_max-Keeps hides.cpu_max numeric_max)
            (bind-Keeps get_current_pids-Keeps (λ n. update-Keeps _ (hides.baseline_pids n)))))))

  pub add_app-Keeps : Keeps fl files (SecurityAwarePolicy fl files) view (add_app fl files)
  unfolding add_app
  add_app-Keeps = attempt-Keeps place-Keeps

  pub remove_app-Keeps : Keeps fl files (SecurityAwarePolicy fl files) view (remove_app fl files)
  unfolding remove_app
  remove_app-Keeps = bind-Keeps (get_pu_vector-Keeps hides.pu_vec) (λ vec.
      bind-Keeps get-Keeps (λ c.
        bind-Keeps (in_bounds-Keeps (release_all (to_vector vec) c.own.apps_on_pu)) (λ counters.
          own-Keeps (λ d. record d.own {
            apps_on_pu = counters;
            assigned_pu = erase (pid_key fl files) d.mapping.app.pid d.own.assigned_pu;
          }))))
