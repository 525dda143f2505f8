-- ===== src/Policies/Factory.antt =====
-- PolicyManager::makePolicy of rm/policymanager/policymanager.cpp with the constructors of the policies:
-- the policy that a name stands for, and the manager as it starts.
use konro.Base.{ℕ, none, List, []}
use konro.AppMapping.{CgroupFiles}
use konro.Float.{Float}
use konro.PlatformDescription.{Chain, get_num_processing_units, get_pu_set, get_pu_distance}
use konro.PolicyManager.{
  PolicyName, no_policy, rand_policy, pu_progressive_policy, min_cores_policy,
  security_aware_policy, IBasePolicy, PolicyManager,
}
use konro.Policies.Counters.{zeros}
use konro.Policies.MinCores.{MinCoresPolicy}
use konro.Policies.MinCores.Instance.{min_cores_policy_instance}
use konro.Policies.NoPolicy.{no_policy_instance}
use konro.Policies.PuProgressive.{PuProgressivePolicy}
use konro.Policies.PuProgressive.Instance.{pu_progressive_policy_instance}
use konro.Policies.Rand.Instance.{rand_policy_instance}
use konro.Policies.SecurityAware.{make_security_aware_policy}
use konro.Policies.SecurityAware.Instance.{security_aware_policy_instance}
use konro.SecState.{PolicyThresholds}

unfoldable pub make_pu_progressive_policy : List Chain → PuProgressivePolicy
make_pu_progressive_policy pus = record {
  pu_set = get_pu_set pus;
  pu_distance = get_pu_distance pus;
  last_platform_load = [];
  apps_on_pu = zeros (get_num_processing_units pus);
}

unfoldable pub make_min_cores_policy : List Chain → MinCoresPolicy
make_min_cores_policy pus = record {
  pu_set = get_pu_set pus;
  pu_distance = get_pu_distance pus;
  last_platform_load = none;
  apps_on_pu = zeros (get_num_processing_units pus);
}

-- A policy, and its state as its constructor leaves it.
pub record Made (fl : Float) : Type 1 where
  pub policy : IBasePolicy fl
  pub state : policy.S

-- The random numbers and the thresholds that a policy is made with are arguments.
module _ (fl : Float) (files : CgroupFiles) (pus : List Chain) (rand_number : ℕ → ℕ)
    (thresholds : PolicyThresholds fl) (w : files.World) where
  unfoldable pub make_policy : PolicyName → Made fl
  make_policy rand_policy = record {
    policy = rand_policy_instance fl files;
    state = (record { num_pus = get_num_processing_units pus; rand_number = rand_number }, w);
  }
  make_policy pu_progressive_policy = record {
    policy = pu_progressive_policy_instance fl files;
    state = (make_pu_progressive_policy pus, w);
  }
  make_policy min_cores_policy = record {
    policy = min_cores_policy_instance fl files;
    state = (make_min_cores_policy pus, w);
  }
  make_policy security_aware_policy = record {
    policy = security_aware_policy_instance fl files;
    state = (make_security_aware_policy fl files (get_num_processing_units pus) thresholds, w);
  }
  make_policy no_policy = record { policy = no_policy_instance fl; state = tt }

  -- The constructor of PolicyManager.
  abbrev pub make_policy_manager : (name : PolicyName) → PolicyManager fl (make_policy name).policy
  make_policy_manager name = record { apps = []; policy_state = (make_policy name).state }
