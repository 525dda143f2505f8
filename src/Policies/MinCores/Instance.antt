-- ===== src/Policies/MinCores/Instance.antt =====
-- MinCoresPolicy as a policy of the PolicyManager.
use konro.Base.{refl}
use konro.AppMapping.{CgroupFiles}
use konro.Effect.{ok}
use konro.Float.{Float}
use konro.PolicyManager.{IBasePolicy}
use konro.Policies.Mapped.{app-Hides, called, called-app}
use konro.Policies.MinCores.{MinCoresPolicy, add_app, remove_app, monitor, feedback}
use konro.Policies.MinCores.Frame.{add_app-Keeps, feedback-Keeps}

module _ (fl : Float) (files : CgroupFiles) where
  abbrev pub min_cores_policy_instance : IBasePolicy fl
  min_cores_policy_instance = record {
    S = MinCoresPolicy × files.World;
    add_app = λ ms m s. called (add_app fl files ms) m s;
    remove_app = λ ms m s. called (remove_app fl files) m s;
    timer = λ s. s;
    monitor = λ load s. (monitor fl files load s.0, s.1);
    feedback = λ m n s. called (feedback fl files n) m s;
    security_alert = λ m sai factors labels s. (ok tt, m, s);
    clear_app = λ m s. (ok tt, m, s);
    set_thresholds = λ th s. s;
    add_app-app = λ ms m s. called-app m s (add_app-Keeps app-Hides ms);
    feedback-app = λ m n s. called-app m s (feedback-Keeps app-Hides n);
    security_alert-app = λ m sai factors labels s. refl;
    clear_app-app = λ m s. refl;
  }
