-- ===== src/Policies/SecurityAware/Instance.antt =====
-- SecurityAwarePolicy as a policy of the PolicyManager.
use konro.Base.{refl, Bool-cases, inl, inr, false, ◌==◌}
use konro.AppMapping.{CgroupFiles, set_sai, set_quarantine}
use konro.AppMapping.Frame.{Keeps, then-Keeps, on_files-Keeps, update-Keeps}
use konro.Float.{Float}
use konro.PolicyManager.{IBasePolicy}
use konro.SecState.{observe, rank, clear}
use konro.Policies.Mapped.{app_of, app-Hides, called, called-app}
use konro.Policies.SecurityAware.{
  SecurityAwarePolicy, add_app, remove_app, monitor, feedback, tracked, security_alert,
  set_thresholds, clear_app,
}
use konro.Policies.SecurityAware.Frame.{add_app-Keeps, feedback-Keeps, apply_state-Keeps}

module _ (fl : Float) (files : CgroupFiles) where
  pub security_alert-Keeps :
      (sai : fl.F)
      → Keeps fl files (SecurityAwarePolicy fl files) app_of (security_alert fl files sai)
  unfolding security_alert set_sai
  security_alert-Keeps sai = record {
    kept = λ c.
        let d = record c { mapping = record c.mapping { sai = sai } } in
        let t = tracked fl files sai d in
        elim (Bool-cases (rank t.state == rank c.mapping.sec_state.state)) [
          | inl h ↦ rw h refl
          | inr h ↦ rw h (
              (apply_state-Keeps {view = app_of} app-Hides (λ q m. refl) t.state).kept
                (record d { mapping = record d.mapping { sec_state = t } }))
        ];
  }

  pub clear_app-Keeps : Keeps fl files (SecurityAwarePolicy fl files) app_of (clear_app fl files)
  unfolding clear_app set_sai set_quarantine
  clear_app-Keeps =
      then-Keeps (update-Keeps (λ m. record m { sec_state = clear m.sec_state }) (λ m. refl)) (
        then-Keeps (on_files-Keeps (files.set_freeze false)) (
          then-Keeps (update-Keeps (λ m. record m { quarantine = false }) (λ m. refl)) (
            then-Keeps (update-Keeps (λ m. record m { sai = fl.literal 0 1 }) (λ m. refl))
              (apply_state-Keeps app-Hides (λ q m. refl) observe))))

  abbrev pub security_aware_policy_instance : IBasePolicy fl
  security_aware_policy_instance = record {
    S = SecurityAwarePolicy fl files × files.World;
    add_app = λ ms m s. called (add_app fl files) m s;
    remove_app = λ ms m s. called (remove_app fl files) m s;
    timer = λ s. s;
    monitor = λ load s. (monitor fl files load s.0, s.1);
    feedback = λ m n s. called (feedback fl files n) m s;
    security_alert = λ m sai factors labels s. called (security_alert fl files sai) m s;
    clear_app = λ m s. called (clear_app fl files) m s;
    set_thresholds = λ th s. (set_thresholds fl files th s.0, s.1);
    add_app-app = λ ms m s. called-app m s (add_app-Keeps app-Hides);
    feedback-app = λ m n s. called-app m s (feedback-Keeps app-Hides n);
    security_alert-app = λ m sai factors labels s. called-app m s (security_alert-Keeps sai);
    clear_app-app = λ m s. called-app m s clear_app-Keeps;
  }
