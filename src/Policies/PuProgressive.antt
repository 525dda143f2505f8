-- ===== src/Policies/PuProgressive.antt =====
-- rm/policymanager/policies/puprogressivepolicy.h and puprogressivepolicy.cpp: every app starts on
-- one PU and is given further ones, near to those it has. What the platform description knows (the
-- set of PUs and their distances, from hwloc) is part of the state.
pub mod Frame
pub mod Instance
use konro.NumericValue.{same_text}
use konro.Base.{ℕ, ◌+◌, not, Option, List, [], ◌∷◌, ltb, if◌then◌else◌}
use konro.Base.Int.{ℤ, negsuc, eqb_ℤ, to_short}
use konro.AppMapping.{
  CgroupFiles, AppMapping, Context, get_pu_vector, set_pu_vector, set_cpu_max_cached,
  set_last_feedback,
}
use konro.Cpuset.{to_vector, add_pu, remove_pu}
use konro.Effect.{M, ◌>>=◌, ◌>>◌, pure, get, modify, in_bounds, attempt}
use konro.Float.{Float}
use konro.Policies.Counters.{increment, decrement, release_all}
use konro.Policies.PuChoice.{get_lower_usage_pu, get_new_pu, pick_worst_pu}
use konro.Policies.Quota.{increase_cpu_quota, decrease_cpu_quota}

-- std::count_if over the set of apps
unfoldable pub count_apps_with_same_cgroup : {fl : Float} → List (AppMapping fl) → AppMapping fl → ℕ
count_apps_with_same_cgroup [] m = 0
count_apps_with_same_cgroup (x ∷ xs) m =
    let n = count_apps_with_same_cgroup xs m in
    if same_text x.app.cgroup_dir m.app.cgroup_dir then n + 1 else n

-- The fields of the policy, and what the platform description answers.
pub record PuProgressivePolicy : Type 0 where
  pub pu_set : List ℤ
  pub pu_distance : ℤ → ℤ → ℤ
  pub last_platform_load : List ℤ
  pub apps_on_pu : List ℤ

module _ (fl : Float) (files : CgroupFiles) where
  open fl use {F, literal, of_ℤ, add, sub, mul, flt}

  abbrev pub Act : Type 0 → Type 0
  Act A = M (Context fl files PuProgressivePolicy) A

  -- Sets the counters, unless the index was out of bounds.
  unfoldable pub count_with : (List ℤ → Option (List ℤ)) → Act (Unit {0})
  count_with change = do
    c ← get
    counters ← in_bounds (change c.own.apps_on_pu)
    modify (λ d. record d { own = record d.own { apps_on_pu = counters } })

  -- The body of the try block of `addApp`.
  unfoldable pub start_on_one : Act (Unit {0})
  unfolding count_with get_lower_usage_pu
  start_on_one = do
    c ← get
    picked ← in_bounds (get_lower_usage_pu c.own.last_platform_load c.own.apps_on_pu)
    let pu = to_short picked
    set_pu_vector fl files ((pu, pu) ∷ [])
    count_with (increment pu)
    set_cpu_max_cached fl files 100

  unfoldable pub add_app : List (AppMapping fl) → Act (Unit {0})
  unfolding start_on_one count_apps_with_same_cgroup
  add_app apps = do
    c ← get
    (if ltb 1 (count_apps_with_same_cgroup apps c.mapping) then pure tt else attempt start_on_one)

  unfoldable pub remove_app : Act (Unit {0})
  unfolding count_with
  remove_app = do vec ← get_pu_vector fl files; count_with (release_all (to_vector vec))

  unfoldable pub monitor : List ℤ → PuProgressivePolicy → PuProgressivePolicy
  monitor load p = record p { last_platform_load = load }

  abbrev pub slack : F
  slack = literal 2 10

  abbrev pub scale_percentage : F
  scale_percentage = literal 15 100

  unfoldable pub grow : Act (Unit {0})
  unfolding get_new_pu count_with
  grow = do
    vec ← get_pu_vector fl files
    c ← get
    picked ←
        in_bounds
          (get_new_pu c.own.pu_distance c.own.pu_set c.own.last_platform_load c.own.apps_on_pu vec)
    let new_pu = to_short picked
    (if not (eqb_ℤ new_pu (negsuc 0))
        then (do
          added ← in_bounds (add_pu vec new_pu)
          set_pu_vector fl files added.0
          count_with (increment new_pu)
          done ← increase_cpu_quota fl files scale_percentage
          pure tt)
        else pure tt)

  unfoldable pub shrink : Act (Unit {0})
  unfolding pick_worst_pu count_with
  shrink = do
    vec ← get_pu_vector fl files
    c ← get
    let rem_pu = pick_worst_pu c.own.pu_distance vec
    (if not (eqb_ℤ rem_pu (negsuc 0))
        then (do
          removed ← in_bounds (remove_pu vec rem_pu)
          set_pu_vector fl files removed.0
          count_with (decrement rem_pu)
          done ← decrease_cpu_quota fl files scale_percentage
          pure tt)
        else pure tt)

  unfoldable pub feedback : ℤ → Act (Unit {0})
  unfolding grow shrink
  feedback n =
      if flt (of_ℤ n) (mul (literal 100 1) (sub (literal 1 1) slack))
      then (do
        done ← increase_cpu_quota fl files scale_percentage
        (if done then pure tt else (grow >> set_last_feedback fl files n)))
      else if flt (mul (literal 100 1) (add (literal 1 1) slack)) (of_ℤ n)
      then (do
        done ← decrease_cpu_quota fl files scale_percentage
        (if done then pure tt else (shrink >> set_last_feedback fl files n)))
      else set_last_feedback fl files n
