-- ===== src/PolicyManager.antt =====
-- rm/policymanager/policymanager.h and policymanager.cpp, over the policy interface of
-- rm/policymanager/policies/ibasepolicy.h.
--
-- A policy works on the AppMapping objects that the set shares with it: an operation returns the
-- mapping that it was given, as it left it, and the manager's set holds that object. An exception
-- that the policy lets out is not caught, and ends the program.
pub mod Lasting
pub mod Preserved
pub mod Tracking
use Prim.Native.String.{String}
use text.Mathlib.Text.{◌==◌}
use konro.Base.{
  ℕ, ◌≡◌, refl, Bool, true, false, Option, none, some, List, [], ◌∷◌, if◌then◌else◌, is_some,
}
use konro.Base.Int.{ℤ, eqb_ℤ}
use konro.Base.OrderedSet.{insert, find, erase}
use konro.App.{App}
use konro.AppMapping.{AppMapping, make_app_mapping}
use konro.Effect.{Exit, ok, exception, undefined}
use konro.Float.{Float}
use konro.SecState.{PolicyThresholds}

pub data PolicyName : Type 0 where
  no_policy rand_policy pu_progressive_policy min_cores_policy security_aware_policy : PolicyName

pub get_policy_by_name : String → PolicyName
get_policy_by_name policy_name =
    if policy_name == "RandPolicy"
    then rand_policy
    else if policy_name == "PuProgressivePolicy"
    then pu_progressive_policy
    else if policy_name == "MinCoresPolicy"
    then min_cores_policy
    else if policy_name == "SecurityAwarePolicy"
    then security_aware_policy
    else no_policy

module _ (fl : Float) where
  open fl use {F}

  -- sec::SecurityFactors of rm/librmcommon/sai.h
  pub record SecurityFactors : Type 0 where
    pub fanout : F
    pub half_open : F
    pub fork_rate : F
    pub new_exec : F
    pub cpu_burst : F
    pub egress : F
    pub mem_growth : F
    pub raw_socket : F

  abbrev pub mapping_key : AppMapping fl → ℤ
  mapping_key m = m.app.pid

  -- How an operation on a mapping ends: with the mapping and the policy's state.
  abbrev pub Done : Type 0 → Type 0
  Done S = Exit (Unit {0}) × AppMapping fl × S

  -- The first argument is the set of apps, which a policy only reads. `app_` has no setter, so an
  -- implementation leaves the app of the mapping.
  pub record IBasePolicy : Type 1 where
    pub S : Type 0
    pub add_app : List (AppMapping fl) → AppMapping fl → S → Done S
    pub remove_app : List (AppMapping fl) → AppMapping fl → S → Done S
    pub timer : S → S
    pub monitor : List ℤ → S → S
    pub feedback : AppMapping fl → ℤ → S → Done S
    pub security_alert : AppMapping fl → F → SecurityFactors → String → S → Done S
    pub clear_app : AppMapping fl → S → Done S
    pub set_thresholds : PolicyThresholds fl → S → S
    pub add_app-app :
        (ms : List (AppMapping fl)) (m : AppMapping fl) (s : S) → (add_app ms m s).1.app ≡ m.app
    pub feedback-app : (m : AppMapping fl) (n : ℤ) (s : S) → (feedback m n s).1.app ≡ m.app
    pub security_alert-app :
        (m : AppMapping fl) (x : F) (f : SecurityFactors) (l : String) (s : S)
        → (security_alert m x f l s).1.app ≡ m.app
    pub clear_app-app : (m : AppMapping fl) (s : S) → (clear_app m s).1.app ≡ m.app

  -- The events that the manager subscribes to, and any other.
  pub data Event : Type 0 where
    add_event : App → Event
    remove_event : App → Event
    timer_event : Event
    monitor_event : List ℤ → Event
    feedback_event : App → ℤ → Event
    security_event : App → F → SecurityFactors → String → Event
    clear_event : ℤ → Event
    other_event : Event

  -- The object with the key of m is m itself: what was done to m shows in the set.
  unfoldable pub share : AppMapping fl → List (AppMapping fl) → List (AppMapping fl)
  share m [] = []
  share m (x ∷ xs) = (if eqb_ℤ (mapping_key x) (mapping_key m) then m else x) ∷ share m xs

  module _ (policy : IBasePolicy) where
    open policy use {S, add_app, remove_app, timer, monitor, feedback, security_alert, clear_app}

    pub record PolicyManager : Type 0 where
      pub apps : List (AppMapping fl)
      pub policy_state : S

    -- The set and the policy after an operation that returns. `none`: it threw, or its behaviour is
    -- undefined.
    unfoldable pub returned : List (AppMapping fl) → Done S → Option PolicyManager
    unfolding share
    returned apps (ok u, m, s) = some (record { apps = share m apps; policy_state = s })
    returned apps (exception, m, s) = none
    returned apps (undefined, m, s) = none

    -- The same where the set does not hold the object.
    unfoldable pub unshared : List (AppMapping fl) → Done S → Option PolicyManager
    unshared apps (ok u, m, s) = some (record { apps = apps; policy_state = s })
    unshared apps (exception, m, s) = none
    unshared apps (undefined, m, s) = none

    -- `apps_.insert` keeps the object of an app that is already there, and the policy is given the
    -- new one.
    unfoldable pub process_add_event : App → PolicyManager → Option PolicyManager
    unfolding returned unshared
    process_add_event app pm =
        let m = make_app_mapping fl app in
        let apps = insert mapping_key m pm.apps in
        if is_some (find mapping_key app.pid pm.apps)
        then unshared apps (add_app apps m pm.policy_state)
        else returned apps (add_app apps m pm.policy_state)

    unfoldable pub erased : ℤ → Option PolicyManager → Option PolicyManager
    erased pid none = none
    erased pid (some pm) = some (record pm { apps = erase mapping_key pid pm.apps })

    unfoldable pub process_remove_event : App → PolicyManager → Option PolicyManager
    unfolding returned erased
    process_remove_event app pm = elim (find mapping_key app.pid pm.apps) [
      | none ↦ some pm
      | some m ↦ erased app.pid (returned pm.apps (remove_app pm.apps m pm.policy_state))
    ]

    unfoldable pub process_timer_event : PolicyManager → PolicyManager
    process_timer_event pm = record pm { policy_state = timer pm.policy_state }

    unfoldable pub process_monitor_event : List ℤ → PolicyManager → PolicyManager
    process_monitor_event load pm = record pm { policy_state = monitor load pm.policy_state }

    unfoldable pub process_feedback_event : App → ℤ → PolicyManager → Option PolicyManager
    unfolding returned
    process_feedback_event app n pm = elim (find mapping_key app.pid pm.apps) [
      | none ↦ some pm
      | some m ↦ returned pm.apps (feedback m n pm.policy_state)
    ]

    unfoldable pub process_security_event :
        App → F → SecurityFactors → String → PolicyManager → Option PolicyManager
    unfolding returned
    process_security_event app sai factors labels pm = elim (find mapping_key app.pid pm.apps) [
      | none ↦ some pm
      | some m ↦
          returned pm.apps
            (security_alert (record m { sai = sai }) sai factors labels pm.policy_state)
    ]

    unfoldable pub process_clear_event : ℤ → PolicyManager → Option PolicyManager
    unfolding returned
    process_clear_event pid pm = elim (find mapping_key pid pm.apps) [
      | none ↦ some pm
      | some m ↦ returned pm.apps (clear_app m pm.policy_state)
    ]

    unfoldable pub process_event : Event → PolicyManager → Option PolicyManager
    process_event (add_event app) pm = process_add_event app pm
    process_event (remove_event app) pm = process_remove_event app pm
    process_event timer_event pm = some (process_timer_event pm)
    process_event (monitor_event load) pm = some (process_monitor_event load pm)
    process_event (feedback_event app n) pm = process_feedback_event app n pm
    process_event (security_event app sai factors labels) pm =
        process_security_event app sai factors labels pm
    process_event (clear_event pid) pm = process_clear_event pid pm
    process_event other_event pm = some pm

    unfoldable pub set_policy_thresholds : PolicyThresholds fl → PolicyManager → PolicyManager
    set_policy_thresholds th pm = record pm {
      policy_state = policy.set_thresholds th pm.policy_state;
    }
