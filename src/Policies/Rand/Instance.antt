-- ===== src/Policies/Rand/Instance.antt =====
-- RandPolicy as a policy of the PolicyManager.
use konro.Base.{refl, List, [], ◌∷◌, ltb}
use konro.Base.Int.{ℤ, pos, to_short}
use konro.AppMapping.{CgroupFiles, AppMapping}
use konro.AppMapping.Frame.{
  Keeps, bind-Keeps, get-Keeps, if-Keeps, pure-Keeps, attempt-Keeps, set_pu_vector-Keeps,
}
use konro.Effect.{ok}
use konro.Float.{Float}
use konro.PolicyManager.{IBasePolicy}
use konro.Policies.Mapped.{Hides, app-Hides, called, called-app, set_last_feedback-Keeps}
use konro.Policies.PuProgressive.{count_apps_with_same_cgroup}
use konro.Policies.Rand.{RandPolicy, add_app, feedback}

module _ (fl : Float) (files : CgroupFiles) where
  module _ {B : Type 0} {view : AppMapping fl → B} (hides : Hides fl view) where
    pub add_app-Keeps :
        (apps : List (AppMapping fl))
        → Keeps fl files (RandPolicy fl files) view (add_app fl files apps)
    unfolding add_app
    add_app-Keeps apps = bind-Keeps get-Keeps (λ c.
        let pu = to_short (pos (c.own.rand_number c.own.num_pus)) in
        if-Keeps (ltb 1 (count_apps_with_same_cgroup apps c.mapping)) (pure-Keeps tt)
          (attempt-Keeps (set_pu_vector-Keeps hides.pu_vec ((pu, pu) ∷ []))))

    pub feedback-Keeps : (n : ℤ) → Keeps fl files (RandPolicy fl files) view (feedback fl files n)
    unfolding feedback
    feedback-Keeps n = set_last_feedback-Keeps n hides

  abbrev pub rand_policy_instance : IBasePolicy fl
  rand_policy_instance = record {
    S = RandPolicy fl files × files.World;
    add_app = λ ms m s. called (add_app fl files ms) m s;
    remove_app = λ ms m s. (ok tt, m, s);
    timer = λ s. s;
    monitor = λ load s. s;
    feedback = λ m n s. called (feedback fl files n) m s;
    security_alert = λ m sai factors labels s. (ok tt, m, s);
    clear_app = λ m s. (ok tt, m, s);
    set_thresholds = λ th s. s;
    add_app-app = λ ms m s. called-app m s (add_app-Keeps app-Hides ms);
    feedback-app = λ m n s. called-app m s (feedback-Keeps app-Hides n);
    security_alert-app = λ m sai factors labels s. refl;
    clear_app-app = λ m s. refl;
  }
