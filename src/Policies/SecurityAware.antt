-- ===== src/Policies/SecurityAware.antt =====
-- rm/policymanager/policies/securityawarepolicy.h and securityawarepolicy.cpp: graduated containment
-- of the apps whose security anomaly index (SAI) is high.
pub mod Frame
pub mod Flag
pub mod Demands
pub mod Containment
pub mod Instance
pub mod Invariant
pub mod Frozen
pub mod Sticky
use Prim.Native.String.{String}
use konro.Base.{
  ℕ, zero, ◌+◌, ◌*◌, Bool, true, false, not, ◌&&◌, ◌||◌, Option, none, some, List, [], ◌∷◌, ltb,
  ◌==◌, if◌then◌else◌, max,
}
use konro.Base.Int.{ℤ, pos, negsuc, eqb_ℤ, ltb_ℤ, hundred, max_ℤ, to_int, to_short, to_uint64}
use konro.Base.OrderedSet.{find, erase}
use konro.App.{App, SecurityLevel, unclassified, low, medium, high, critical}
use konro.AppMapping.{
  numeric_max, CgroupFiles, AppMapping, Context, on_files, update, get_pu_vector, set_pu_vector,
  set_cpu_max_cached, set_sai, set_quarantine, set_last_feedback, set_baseline_pids,
  get_current_pids, set_max_pids,
}
use konro.Cpuset
use konro.Cpuset.{CpusetVector, to_vector, add_pu}
use konro.Effect.{
  M, Exit, ok, exception, undefined, continue, ◌>>=◌, ◌>>◌, pure, get, modify, in_bounds, attempt,
  caught,
}
use konro.Float.{Float}
use konro.PolicyManager.{SecurityFactors}
use konro.Policies.Counters.{zeros, increment, release_all, min_index}
use konro.Policies.Quota.{increase_cpu_quota, decrease_cpu_quota}
use konro.SecState.{
  SecState, observe, throttle, restrict, quarantine, rank, StateTracker, PolicyThresholds, step,
  clear,
}

-- HIGH and CRITICAL
unfoldable pub is_high : SecurityLevel → Bool
is_high unclassified = false
is_high low = false
is_high medium = false
is_high high = true
is_high critical = true

module _ (fl : Float) (files : CgroupFiles) where
  open fl use {F, literal, of_ℤ, mul, flt, trunc}

  unfoldable pub tol_offset : SecurityLevel → F
  tol_offset unclassified = literal 0 1
  tol_offset low = literal 0 1
  tol_offset medium = literal 5 100
  tol_offset high = literal 10 100
  tol_offset critical = literal 15 100

  unfoldable pub step_factor : SecurityLevel → F
  step_factor unclassified = literal 50 100
  step_factor low = literal 50 100
  step_factor medium = literal 65 100
  step_factor high = literal 80 100
  step_factor critical = literal 80 100

  -- The fields of the policy; `num_pus` is platformDescription_.getNumProcessingUnits().
  pub record SecurityAwarePolicy : Type 0 where
    pub num_pus : ℕ
    pub last_platform_load : List ℤ
    pub apps_on_pu : List ℤ
    pub thresholds : PolicyThresholds fl
    pub assigned_pu : List (ℤ × ℤ)

  abbrev pub make_security_aware_policy : ℕ → PolicyThresholds fl → SecurityAwarePolicy
  make_security_aware_policy num_pus th = record {
    num_pus = num_pus;
    last_platform_load = [];
    apps_on_pu = zeros num_pus;
    thresholds = th;
    assigned_pu = [];
  }

  -- assignedPu_[pid] = pu
  abbrev pub pid_key : ℤ × ℤ → ℤ
  pid_key p = p.0

  unfoldable pub assign : ℤ → ℤ → List (ℤ × ℤ) → List (ℤ × ℤ)
  assign pid pu [] = (pid, pu) ∷ []
  assign pid pu ((k, v) ∷ rest) =
      if ltb_ℤ pid k
      then (pid, pu) ∷ (k, v) ∷ rest
      else if ltb_ℤ k pid
      then (k, v) ∷ assign pid pu rest
      else (k, pu) ∷ rest

  abbrev pub Act : Type 0 → Type 0
  Act A = M (Context fl files SecurityAwarePolicy) A

  -- ++appsOnPu_[pu]
  unfoldable pub count_app : ℤ → Act (Unit {0})
  count_app pu = do
    c ← get
    counters ← in_bounds (increment pu c.own.apps_on_pu)
    modify (λ d. record d { own = record d.own { apps_on_pu = counters } })

  unfoldable pub initial_pu : SecurityLevel → List ℤ → ℕ
  unfolding is_high
  initial_pu level [] = 0
  initial_pu level (n ∷ ns) = if is_high level then min_index (n ∷ ns) else 0

  -- The body of the try block of `addApp`.
  unfoldable pub place : Act (Unit {0})
  unfolding initial_pu count_app
  place = do
    c ← get
    let pu = pos (initial_pu c.mapping.security_level c.own.apps_on_pu)
    set_pu_vector fl files ((to_short pu, to_short pu) ∷ [])
    count_app pu
    modify (λ d. record d {
      own = record d.own { assigned_pu = assign c.mapping.app.pid pu d.own.assigned_pu };
    })
    set_cpu_max_cached fl files numeric_max
    pids ← get_current_pids fl files
    set_baseline_pids fl files pids

  unfoldable pub add_app : Act (Unit {0})
  unfolding place
  add_app = attempt place

  unfoldable pub remove_app : Act (Unit {0})
  remove_app = do
    vec ← get_pu_vector fl files
    c ← get
    counters ← in_bounds (release_all (to_vector vec) c.own.apps_on_pu)
    modify (λ d. record d {
      own = record d.own {
        apps_on_pu = counters;
        assigned_pu = erase pid_key d.mapping.app.pid d.own.assigned_pu;
      };
    })

  unfoldable pub monitor : List ℤ → SecurityAwarePolicy → SecurityAwarePolicy
  monitor load p = record p { last_platform_load = load }

  abbrev pub scale_percentage : F
  scale_percentage = literal 15 100

  -- For HIGH and CRITICAL apps on a single PU: PU 1 is added.
  unfoldable pub expand_to_pu_1 : Act (Unit {0})
  unfolding count_app
  expand_to_pu_1 = do
    vec ← get_pu_vector fl files
    (if eqb_ℤ (Cpuset.count_pus vec) (pos 1)
        then (do
          added ← in_bounds (add_pu vec (pos 1))
          set_pu_vector fl files added.0
          count_app (pos 1)
          done ← increase_cpu_quota fl files scale_percentage
          pure tt)
        else pure tt)

  unfoldable pub feedback_low : ℤ → Act (Unit {0})
  unfolding expand_to_pu_1 is_high
  feedback_low n = do
    done ← increase_cpu_quota fl files scale_percentage
    c ← get
    (if done then pure tt else (do
      (if is_high c.mapping.security_level then expand_to_pu_1 else pure tt)
      set_last_feedback fl files n))

  unfoldable pub feedback_high : ℤ → Act (Unit {0})
  feedback_high n = do
    done ← decrease_cpu_quota fl files scale_percentage
    if done then pure tt else set_last_feedback fl files n

  -- The feedback of an app that is not in quarantine.
  unfoldable pub react : ℤ → Act (Unit {0})
  unfolding feedback_low feedback_high
  react n =
      if flt (of_ℤ n) (mul (literal 100 1) (literal 8 10))
      then feedback_low n
      else if flt (mul (literal 100 1) (literal 12 10)) (of_ℤ n)
      then feedback_high n
      else set_last_feedback fl files n

  unfoldable pub feedback : ℤ → Act (Unit {0})
  unfolding react
  feedback n = do c ← get; if c.mapping.quarantine then pure tt else react n

  -- The PU recorded by `addApp`, or 0.
  unfoldable pub restored_pu : ℤ → List (ℤ × ℤ) → ℤ
  restored_pu pid assigned = elim (find pid_key pid assigned) [ none ↦ pos 0 | some p ↦ p.1 ]

  -- What `OBSERVE` does once the app is out of quarantine.
  unfoldable pub restore : Act (Unit {0})
  unfolding restored_pu
  restore = do
    set_cpu_max_cached fl files numeric_max
    set_max_pids fl files numeric_max
    c ← get
    let pu = to_short (restored_pu c.mapping.app.pid c.own.assigned_pu)
    if ltb 0 c.own.num_pus then set_pu_vector fl files ((pu, pu) ∷ []) else pure tt

  unfoldable pub apply_observe : Act (Unit {0})
  unfolding restore
  apply_observe = do set_quarantine fl files false; restore

  -- The cpu.max of THROTTLE, in percent.
  unfoldable pub throttle_band : ℕ → SecurityLevel → ℤ
  unfolding step_factor
  throttle_band num_pus level =
      max_ℤ (trunc (mul (of_ℤ (pos (max num_pus 1 * 100))) (step_factor level))) (pos 10)

  unfoldable pub apply_throttle : Act (Unit {0})
  unfolding throttle_band
  apply_throttle = do
    c ← get
    set_cpu_max_cached fl files (to_uint64 (throttle_band c.own.num_pus c.mapping.security_level))

  -- The limit on the number of processes: the baseline, or the current number, or 1.
  unfoldable pub pids_cap : Act ℤ
  pids_cap = do
    c ← get
    (if ltb_ℤ (pos 0) c.mapping.baseline_pids then pure c.mapping.baseline_pids else (do
      pids ← get_current_pids fl files
      if ltb_ℤ (pos 0) pids then get_current_pids fl files else pure (pos 1)))

  unfoldable pub apply_restrict : Act (Unit {0})
  unfolding pids_cap
  apply_restrict = do
    set_cpu_max_cached fl files 20
    set_pu_vector fl files ((pos 0, pos 0) ∷ [])
    cap ← pids_cap
    set_max_pids fl files (to_uint64 cap)

  unfoldable pub apply_quarantine : Act (Unit {0})
  apply_quarantine = do set_quarantine fl files true; on_files fl files (files.set_freeze true)

  unfoldable pub apply_state : SecState → Act (Unit {0})
  unfolding apply_observe apply_throttle apply_restrict apply_quarantine
  apply_state observe = apply_observe
  apply_state throttle = apply_throttle
  apply_state restrict = apply_restrict
  apply_state quarantine = apply_quarantine

  -- The app's tracker after an alert.
  unfoldable pub tracked : F → Context fl files SecurityAwarePolicy → StateTracker
  unfolding tol_offset
  tracked sai c =
      step fl sai c.own.thresholds (tol_offset c.mapping.security_level) c.mapping.sec_state

  unfoldable pub security_alert : F → Act (Unit {0})
  unfolding tracked apply_state
  security_alert sai = do
    set_sai fl files sai
    c ← get
    let t = tracked sai c
    update fl files (λ m. record m { sec_state = t })
    if rank t.state == rank c.mapping.sec_state.state then pure tt else apply_state t.state

  unfoldable pub set_thresholds : PolicyThresholds fl → SecurityAwarePolicy → SecurityAwarePolicy
  set_thresholds th p = record p { thresholds = th }

  unfoldable pub clear_app : Act (Unit {0})
  unfolding apply_state
  clear_app = do
    update fl files (λ m. record m { sec_state = clear m.sec_state })
    on_files fl files (files.set_freeze false)
    set_quarantine fl files false
    set_sai fl files (literal 0 1)
    apply_state observe
