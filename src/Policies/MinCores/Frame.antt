-- ===== src/Policies/MinCores/Frame.antt =====
-- What the operations of MinCoresPolicy leave alone, on every exit.
use konro.Base.{◌≡◌, Option, List, [], ◌∷◌, ltb, not}
use konro.Base.Int.{ℤ, negsuc, eqb_ℤ, to_short}
use konro.AppMapping.{CgroupFiles, AppMapping}
use konro.AppMapping.Frame.{
  Keeps, bind-Keeps, then-Keeps, if-Keeps, get-Keeps, in_bounds-Keeps, pure-Keeps, attempt-Keeps,
  own-Keeps, set_pu_vector-Keeps, get_pu_vector-Keeps, set_cpu_max-Keeps, get_cpu_max-Keeps,
}
use konro.Cpuset.{CpusetVector, add_pu, to_vector}
use konro.Float.{Float}
use konro.Policies.Counters.{increment, release_all}
use konro.Policies.Mapped.{Hides, set_last_feedback-Keeps}
use konro.Policies.MinCores.{
  MinCoresPolicy, count_with, get_next_pu, get_lower_usage_pu, start_on_one, add_app, remove_app,
  decrease_cpu_bandwidth, decreased_band, count_apps_with_same_cgroup, grow, feedback,
}

module _ {fl : Float} {files : CgroupFiles} {B : Type 0} {view : AppMapping fl → B} where
  count_with-Keeps :
      (change : List ℤ → Option (List ℤ))
      → Keeps fl files MinCoresPolicy view (count_with fl files change)
  unfolding count_with
  count_with-Keeps change = bind-Keeps get-Keeps (λ c.
      bind-Keeps (in_bounds-Keeps (change c.own.apps_on_pu))
        (λ counters. own-Keeps (λ d. record d.own { apps_on_pu = counters })))

  -- Giving an app a further PU changes nothing of its mapping but the PUs, on every exit.
  pub grow-Keeps :
      ((vec : CpusetVector) (m : AppMapping fl) → view (record m { pu_vec = vec }) ≡ view m)
      → Keeps fl files MinCoresPolicy view (grow fl files)
  unfolding grow
  grow-Keeps hidden = bind-Keeps (get_pu_vector-Keeps hidden) (λ vec. bind-Keeps get-Keeps (λ c.
      bind-Keeps (in_bounds-Keeps (get_next_pu c.own vec)) (λ picked.
        if-Keeps (not (eqb_ℤ (to_short picked) (negsuc 0)))
          (bind-Keeps (in_bounds-Keeps (add_pu vec (to_short picked))) (λ added.
            then-Keeps (set_pu_vector-Keeps hidden added.0)
              (count_with-Keeps (increment (to_short picked)))))
          (pure-Keeps tt))))

module _ {fl : Float} {files : CgroupFiles} {B : Type 0} {view : AppMapping fl → B}
    (hides : Hides fl view) where
  pub add_app-Keeps :
      (apps : List (AppMapping fl)) → Keeps fl files MinCoresPolicy view (add_app fl files apps)
  unfolding add_app start_on_one
  add_app-Keeps apps = bind-Keeps get-Keeps (λ c.
      if-Keeps (ltb 1 (count_apps_with_same_cgroup apps c.mapping)) (pure-Keeps tt) (
        attempt-Keeps (
          bind-Keeps get-Keeps (λ d.
            bind-Keeps
              (in_bounds-Keeps (get_lower_usage_pu d.own.last_platform_load d.own.apps_on_pu))
              (λ picked.
                then-Keeps
                  (set_pu_vector-Keeps hides.pu_vec ((to_short picked, to_short picked) ∷ []))
                  (count_with-Keeps (increment (to_short picked))))))))

  pub remove_app-Keeps : Keeps fl files MinCoresPolicy view (remove_app fl files)
  unfolding remove_app
  remove_app-Keeps =
      bind-Keeps (get_pu_vector-Keeps hides.pu_vec)
        (λ vec. count_with-Keeps (release_all (to_vector vec)))

  pub feedback-Keeps : (n : ℤ) → Keeps fl files MinCoresPolicy view (feedback fl files n)
  unfolding feedback decrease_cpu_bandwidth
  feedback-Keeps n =
      let last = set_last_feedback-Keeps n hides in
      if-Keeps _ (then-Keeps (grow-Keeps hides.pu_vec) last) (
        if-Keeps _
          (then-Keeps
            (bind-Keeps (get_cpu_max-Keeps hides.cpu_max)
              (λ cur. set_cpu_max-Keeps hides.cpu_max (decreased_band cur 15)))
            last)
          last)
