-- ===== src/Policies/Rand.antt =====
-- rm/policymanager/policies/randpolicy.h and randpolicy.cpp: every app is put on one PU, drawn at
-- random. What std::uniform_int_distribution yields is a parameter: a function of the number of PUs.
pub mod Instance
use konro.Base.{ℕ, List, [], ◌∷◌, ltb, if◌then◌else◌}
use konro.Base.Int.{ℤ, pos, to_short}
use konro.AppMapping.{CgroupFiles, AppMapping, Context, set_pu_vector, set_last_feedback}
use konro.Effect.{M, ◌>>=◌, pure, get, attempt}
use konro.Float.{Float}
use konro.Policies.PuProgressive.{count_apps_with_same_cgroup}

module _ (fl : Float) (files : CgroupFiles) where
  -- `getRandNumber`: the distribution's answer for the number of PUs.
  pub record RandPolicy : Type 0 where
    pub num_pus : ℕ
    pub rand_number : ℕ → ℕ

  unfoldable pub add_app : List (AppMapping fl) → M (Context fl files RandPolicy) (Unit {0})
  add_app apps = do
    c ← get
    let pu = to_short (pos (c.own.rand_number c.own.num_pus))
    (if ltb 1 (count_apps_with_same_cgroup apps c.mapping)
        then pure tt
        else attempt (set_pu_vector fl files ((pu, pu) ∷ [])))

  unfoldable pub feedback : ℤ → M (Context fl files RandPolicy) (Unit {0})
  feedback n = set_last_feedback fl files n
