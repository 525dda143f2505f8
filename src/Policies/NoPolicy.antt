-- ===== src/Policies/NoPolicy.antt =====
-- rm/policymanager/policies/nopolicy.h, with what ibasepolicy.h does by default.
use konro.Base.{refl}
use konro.Effect.{ok}
use konro.Float.{Float}
use konro.PolicyManager.{IBasePolicy}

abbrev pub no_policy_instance : (fl : Float) → IBasePolicy fl
no_policy_instance fl = record {
  S = Unit {0};
  add_app = λ ms m s. (ok tt, m, s);
  remove_app = λ ms m s. (ok tt, m, s);
  timer = λ s. s;
  monitor = λ load s. s;
  feedback = λ m n s. (ok tt, m, s);
  security_alert = λ m sai factors labels s. (ok tt, m, s);
  clear_app = λ m s. (ok tt, m, s);
  set_thresholds = λ th s. s;
  add_app-app = λ ms m s. refl;
  feedback-app = λ m n s. refl;
  security_alert-app = λ m sai factors labels s. refl;
  clear_app-app = λ m s. refl;
}
