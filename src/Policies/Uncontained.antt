-- ===== src/Policies/Uncontained.antt =====
-- The policies that know nothing of security leave every app uncontained.
use konro.Base.{ℕ, ◌≡◌, ◌≢◌, ◌∙◌, refl, Bool, false, some, List, All}
use konro.AppMapping.{CgroupFiles, AppMapping, Context}
use konro.AppMapping.Frame.{Keeps}
use konro.Effect.{M}
use konro.Float.{Float}
use konro.PlatformDescription.{Chain}
use konro.PolicyManager.{
  PolicyName, no_policy, rand_policy, pu_progressive_policy, min_cores_policy,
  security_aware_policy, Event, PolicyManager,
}
use konro.PolicyManager.Preserved.{Kept, Kept-on_all, Preserves, run, run-All}
use konro.Policies.Factory.{make_policy, make_policy_manager}
use konro.Policies.Mapped.{Hides, called}
use konro.Policies.MinCores.Frame as MinCores
use konro.Policies.PuProgressive.Frame as PuProgressive
use konro.Policies.Rand.Instance as RandInstance
use konro.SecState.{StateTracker, cleared, PolicyThresholds}

-- What an alert may change of a mapping to contain its app.
abbrev pub containment : {fl : Float} → AppMapping fl → StateTracker × Bool
containment m = (m.sec_state, m.quarantine)

-- The app is in OBSERVE, with no alert counted, and not quarantined.
abbrev pub IsUncontained : {fl : Float} → AppMapping fl → Type 0
IsUncontained m = containment m ≡ (cleared, false)

containment-Hides : {fl : Float} → Hides fl containment
containment-Hides = record {
  pu_vec = λ v m. refl;
  cpu_max = λ n m. refl;
  last_feedback = λ n m. refl;
  baseline_pids = λ n m. refl;
}

module _ {fl : Float} {files : CgroupFiles} {Policy : Type 0} where
  called-IsUncontained :
      {m : M (Context fl files Policy) (Unit {0})} (mapping : AppMapping fl)
      (s : Policy × files.World)
      → Keeps fl files Policy containment m
      → IsUncontained mapping
      → Kept IsUncontained (called m mapping s)
  called-IsUncontained {m = m} mapping s h p =
      Kept-on_all IsUncontained (called m mapping s)
        (h.kept (record { mapping = mapping; own = s.0; world = s.1 }) ∙ p)

module _ (fl : Float) (files : CgroupFiles) (pus : List Chain) (rand_number : ℕ → ℕ)
    (thresholds : PolicyThresholds fl) (w : files.World) where
  made-Preserves :
      (name : PolicyName)
      → name ≢ security_aware_policy
      → Preserves fl (make_policy fl files pus rand_number thresholds w name).policy IsUncontained
  unfolding make_policy
  made-Preserves no_policy n = record {
    fresh = λ app. refl;
    alerted = λ sai m p. p;
    added = λ ms m s p. p;
    removed = λ ms m s p. p;
    fed_back = λ m n s p. p;
    secured = λ m x f l s p. p;
    freed = λ m s p. p;
  }
  made-Preserves rand_policy n = record {
    fresh = λ app. refl;
    alerted = λ sai m p. p;
    added = λ ms m s p.
        called-IsUncontained m s (RandInstance.add_app-Keeps fl files containment-Hides ms) p;
    removed = λ ms m s p. p;
    fed_back = λ m n s p.
        called-IsUncontained m s (RandInstance.feedback-Keeps fl files containment-Hides n) p;
    secured = λ m x f l s p. p;
    freed = λ m s p. p;
  }
  made-Preserves pu_progressive_policy n = record {
    fresh = λ app. refl;
    alerted = λ sai m p. p;
    added =
        λ ms m s p. called-IsUncontained m s (PuProgressive.add_app-Keeps containment-Hides ms) p;
    removed =
        λ ms m s p. called-IsUncontained m s (PuProgressive.remove_app-Keeps containment-Hides) p;
    fed_back =
        λ m n s p. called-IsUncontained m s (PuProgressive.feedback-Keeps containment-Hides n) p;
    secured = λ m x f l s p. p;
    freed = λ m s p. p;
  }
  made-Preserves min_cores_policy n = record {
    fresh = λ app. refl;
    alerted = λ sai m p. p;
    added = λ ms m s p. called-IsUncontained m s (MinCores.add_app-Keeps containment-Hides ms) p;
    removed = λ ms m s p. called-IsUncontained m s (MinCores.remove_app-Keeps containment-Hides) p;
    fed_back = λ m n s p. called-IsUncontained m s (MinCores.feedback-Keeps containment-Hides n) p;
    secured = λ m x f l s p. p;
    freed = λ m s p. p;
  }
  made-Preserves security_aware_policy n = absurd (n refl)

  -- Under every policy but SecurityAwarePolicy, whatever events the manager handles from its start on,
  -- alerts included, all apps that it holds are in OBSERVE and none is quarantined.
  pub run-IsUncontained :
      (name : PolicyName) (es : List (Event fl))
      (pm : PolicyManager fl (make_policy fl files pus rand_number thresholds w name).policy)
      → name ≢ security_aware_policy
      → run fl
          (make_policy fl files pus rand_number thresholds w name).policy
          es
          (make_policy_manager fl files pus rand_number thresholds w name)
        ≡ some pm
      → All IsUncontained pm.apps
  run-IsUncontained name es pm n h =
      run-All fl (make_policy fl files pus rand_number thresholds w name).policy IsUncontained
        (made-Preserves name n) es (make_policy_manager fl files pus rand_number thresholds w name)
        pm tt h
