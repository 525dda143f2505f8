-- ===== src/Policies/PuProgressive/Frame.antt =====
-- What the operations of PuProgressivePolicy leave alone, on every exit.
use konro.Base.{Option, List, [], ◌∷◌, ltb, not}
use konro.Base.Int.{ℤ, negsuc, eqb_ℤ, to_short}
use konro.AppMapping.{CgroupFiles, AppMapping}
use konro.AppMapping.Frame.{
  Keeps, bind-Keeps, then-Keeps, if-Keeps, get-Keeps, in_bounds-Keeps, pure-Keeps, attempt-Keeps,
  own-Keeps, set_pu_vector-Keeps, get_pu_vector-Keeps, set_cpu_max-Keeps,
}
use konro.Cpuset.{add_pu, remove_pu, to_vector}
use konro.Float.{Float}
use konro.Policies.Counters.{increment, decrement, release_all}
use konro.Policies.Mapped.{Hides, set_last_feedback-Keeps}
use konro.Policies.PuChoice.{get_lower_usage_pu, pick_worst_pu}
use konro.Policies.PuProgressive.{
  PuProgressivePolicy, count_with, start_on_one, add_app, remove_app, count_apps_with_same_cgroup,
  grow, shrink, feedback,
}
use konro.Policies.Quota.Frame.{increase_cpu_quota-Keeps, decrease_cpu_quota-Keeps}

module _ {fl : Float} {files : CgroupFiles} {B : Type 0} {view : AppMapping fl → B} where
  count_with-Keeps :
      (change : List ℤ → Option (List ℤ))
      → Keeps fl files PuProgressivePolicy view (count_with fl files change)
  unfolding count_with
  count_with-Keeps change = bind-Keeps get-Keeps (λ c.
      bind-Keeps (in_bounds-Keeps (change c.own.apps_on_pu))
        (λ counters. own-Keeps (λ d. record d.own { apps_on_pu = counters })))

module _ {fl : Float} {files : CgroupFiles} {B : Type 0} {view : AppMapping fl → B}
    (hides : Hides fl view) where
  pub add_app-Keeps :
      (apps : List (AppMapping fl))
      → Keeps fl files PuProgressivePolicy view (add_app fl files apps)
  unfolding add_app start_on_one
  add_app-Keeps apps = bind-Keeps get-Keeps (λ c.
      if-Keeps (ltb 1 (count_apps_with_same_cgroup apps c.mapping)) (pure-Keeps tt) (
        attempt-Keeps (
          bind-Keeps get-Keeps (λ d.
            bind-Keeps
              (in_bounds-Keeps (get_lower_usage_pu d.own.last_platform_load d.own.apps_on_pu))
              (λ picked.
                then-Keeps
                  (set_pu_vector-Keeps hides.pu_vec ((to_short picked, to_short picked) ∷ []))
                  (then-Keeps (count_with-Keeps (increment (to_short picked)))
                    (set_cpu_max-Keeps hides.cpu_max 100)))))))

  grow-Keeps : Keeps fl files PuProgressivePolicy view (grow fl files)
  unfolding grow
  grow-Keeps = bind-Keeps (get_pu_vector-Keeps hides.pu_vec) (λ vec. bind-Keeps get-Keeps (λ c.
      bind-Keeps (in_bounds-Keeps _) (λ picked.
        if-Keeps (not (eqb_ℤ (to_short picked) (negsuc 0)))
          (bind-Keeps (in_bounds-Keeps (add_pu vec (to_short picked))) (λ added.
            then-Keeps (set_pu_vector-Keeps hides.pu_vec added.0) (
              then-Keeps (count_with-Keeps (increment (to_short picked)))
                (bind-Keeps (increase_cpu_quota-Keeps hides.cpu_max _) (λ done. pure-Keeps tt)))))
          (pure-Keeps tt))))

  shrink-Keeps : Keeps fl files PuProgressivePolicy view (shrink fl files)
  unfolding shrink
  shrink-Keeps = bind-Keeps (get_pu_vector-Keeps hides.pu_vec) (λ vec. bind-Keeps get-Keeps (λ c.
      let rem_pu = pick_worst_pu c.own.pu_distance vec in
      if-Keeps (not (eqb_ℤ rem_pu (negsuc 0)))
        (bind-Keeps (in_bounds-Keeps (remove_pu vec rem_pu)) (λ removed.
          then-Keeps (set_pu_vector-Keeps hides.pu_vec removed.0) (
            then-Keeps (count_with-Keeps (decrement rem_pu))
              (bind-Keeps (decrease_cpu_quota-Keeps hides.cpu_max _) (λ done. pure-Keeps tt)))))
        (pure-Keeps tt)))

  pub feedback-Keeps : (n : ℤ) → Keeps fl files PuProgressivePolicy view (feedback fl files n)
  unfolding feedback
  feedback-Keeps n =
      let last = set_last_feedback-Keeps n hides in
      if-Keeps _
        (bind-Keeps (increase_cpu_quota-Keeps hides.cpu_max _)
          (λ done. if-Keeps done (pure-Keeps tt) (then-Keeps grow-Keeps last)))
        (if-Keeps _
          (bind-Keeps (decrease_cpu_quota-Keeps hides.cpu_max _)
            (λ done. if-Keeps done (pure-Keeps tt) (then-Keeps shrink-Keeps last)))
          last)

  pub remove_app-Keeps : Keeps fl files PuProgressivePolicy view (remove_app fl files)
  unfolding remove_app
  remove_app-Keeps =
      bind-Keeps (get_pu_vector-Keeps hides.pu_vec)
        (λ vec. count_with-Keeps (release_all (to_vector vec)))
