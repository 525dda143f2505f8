-- ===== src/Policies/MinCores.antt =====
-- rm/policymanager/policies/mincorespolicy.h and mincorespolicy.cpp: an app that lags gets a further
-- PU, near to those it has, and an app that runs ahead gets less of the CPU's time. How PUs are picked
-- is as in PuProgressivePolicy, whose functions the file repeats; what the platform description knows
-- is part of the state.
pub mod Bandwidth
pub mod Frame
pub mod Instance
use konro.NumericValue.{same_text}
use konro.Base.{
  ℕ, ◌+◌, ◌-◌, ◌*◌, ◌/◌, ◌%◌, ◌^◌, not, Option, none, some, List, [], ◌∷◌, ltb, if◌then◌else◌,
}
use konro.Base.Int.{ℤ, pos, negsuc, eqb_ℤ, to_short, to_int, to_uint64}
use konro.AppMapping.{
  numeric_max, CgroupFiles, AppMapping, Context, get_pu_vector, set_pu_vector, get_cpu_max_cached,
  set_cpu_max_cached, set_last_feedback,
}
use konro.Base
use konro.Cpuset.{CpusetVector, to_set, to_vector, add_pu}
use konro.Effect.{M, ◌>>=◌, ◌>>◌, pure, get, modify, in_bounds, attempt}
use konro.Float.{Float}
use konro.Policies.Counters.{increment, release_all, min_index}
use konro.Policies.PuChoice
use konro.Policies.PuChoice.{
  no_best, scan_loads, chosen, indices, scan_counters, int_max, difference, none_left,
}

unfoldable pub count_apps_with_same_cgroup : {fl : Float} → List (AppMapping fl) → AppMapping fl → ℕ
count_apps_with_same_cgroup [] m = 0
count_apps_with_same_cgroup (x ∷ xs) m =
    let n = count_apps_with_same_cgroup xs m in
    if same_text x.app.cgroup_dir m.app.cgroup_dir then n + 1 else n

-- The fields of the policy, and what the platform description answers. `last_platform_load` is
-- `none` as long as `hasLastPlatformLoad_` is false; the list is empty then.
pub record MinCoresPolicy : Type 0 where
  pub pu_set : List ℤ
  pub pu_distance : ℤ → ℤ → ℤ
  pub last_platform_load : Option (List ℤ)
  pub apps_on_pu : List ℤ

unfoldable pub get_lower_usage_pu : Option (List ℤ) → List ℤ → Option ℤ
unfolding scan_loads chosen
get_lower_usage_pu none counters = some (pos (min_index counters))
get_lower_usage_pu (some []) counters = some (pos 0)
get_lower_usage_pu (some (load ∷ loads)) counters =
    elim (scan_loads (load ∷ loads) counters (indices 0 (load ∷ loads)) no_best) [
      | none ↦ none
      | some b ↦ some (chosen (pos 0) b)
    ]

-- The overload for a set of PUs.
unfoldable pub get_lower_usage_pu_of : List ℤ → Option (List ℤ) → List ℤ → Option ℤ
unfolding scan_loads chosen scan_counters
get_lower_usage_pu_of puset none counters = scan_counters counters puset int_max (negsuc 0)
get_lower_usage_pu_of puset (some []) counters = scan_counters counters puset int_max (negsuc 0)
get_lower_usage_pu_of puset (some (load ∷ loads)) counters =
    elim (scan_loads (load ∷ loads) counters puset no_best) [
      | none ↦ none
      | some b ↦ some (chosen (negsuc 0) b)
    ]

unfoldable pub get_konro_used_pus : List ℤ → List ℤ
unfolding PuChoice.konro_used_pus
get_konro_used_pus counters = PuChoice.konro_used_pus 0 counters

unfoldable pub get_available_pus : List ℤ → List ℤ → List ℤ
unfolding difference
get_available_pus all used = difference all used

unfoldable pub get_konro_available_pus : List ℤ → List ℤ → List ℤ
unfolding get_konro_used_pus difference
get_konro_available_pus counters used = difference (get_konro_used_pus counters) used

unfoldable pub get_nearest_pus : (ℤ → ℤ → ℤ) → List ℤ → List ℤ → List ℤ
unfolding PuChoice.get_nearest_pus
get_nearest_pus distance used avail = PuChoice.get_nearest_pus distance used avail

-- -1 where no PU is left.
unfoldable pub get_next_pu : MinCoresPolicy → CpusetVector → Option ℤ
unfolding get_konro_available_pus get_available_pus get_nearest_pus get_lower_usage_pu_of
get_next_pu p vec =
    let used = to_set vec in
    let konro = get_konro_available_pus p.apps_on_pu used in
    let avail = get_available_pus p.pu_set used in
    if not (none_left konro)
    then get_lower_usage_pu_of (get_nearest_pus p.pu_distance used konro) p.last_platform_load
        p.apps_on_pu
    else if not (none_left avail)
    then get_lower_usage_pu_of (get_nearest_pus p.pu_distance used avail) p.last_platform_load
        p.apps_on_pu
    else some (negsuc 0)

unfoldable pub pick_worst_pu : (ℤ → ℤ → ℤ) → CpusetVector → ℤ
unfolding PuChoice.pick_worst_pu
pick_worst_pu distance vec = PuChoice.pick_worst_pu distance vec

-- In uint64_t, kept in an int and made a NumericValue again; "max" counts as 100.
unfoldable pub decreased_band : ℕ → ℕ → ℕ
unfolding to_int to_uint64
decreased_band cur percentage =
    let band = if Base.◌==◌ cur numeric_max then 100 else cur in
    to_uint64 (to_int (pos (band - band * percentage % 2 ^ 64 / 100)))

module _ (fl : Float) (files : CgroupFiles) where
  open fl use {F, literal, of_ℤ, add, sub, mul, flt}

  abbrev pub Act : Type 0 → Type 0
  Act A = M (Context fl files MinCoresPolicy) A

  -- Sets the counters, unless the index was out of bounds.
  unfoldable pub count_with : (List ℤ → Option (List ℤ)) → Act (Unit {0})
  count_with change = do
    c ← get
    counters ← in_bounds (change c.own.apps_on_pu)
    modify (λ d. record d { own = record d.own { apps_on_pu = counters } })

  -- The body of the try block of `addApp`.
  unfoldable pub start_on_one : Act (Unit {0})
  unfolding count_with get_lower_usage_pu
  start_on_one = do
    c ← get
    picked ← in_bounds (get_lower_usage_pu c.own.last_platform_load c.own.apps_on_pu)
    let pu = to_short picked
    set_pu_vector fl files ((pu, pu) ∷ [])
    count_with (increment pu)

  unfoldable pub add_app : List (AppMapping fl) → Act (Unit {0})
  unfolding start_on_one count_apps_with_same_cgroup
  add_app apps = do
    c ← get
    (if ltb 1 (count_apps_with_same_cgroup apps c.mapping) then pure tt else attempt start_on_one)

  unfoldable pub remove_app : Act (Unit {0})
  unfolding count_with
  remove_app = do vec ← get_pu_vector fl files; count_with (release_all (to_vector vec))

  unfoldable pub monitor : List ℤ → MinCoresPolicy → MinCoresPolicy
  monitor load p = record p { last_platform_load = some load }

  unfoldable pub increase_cpu_bandwidth : ℕ → ℕ → Act (Unit {0})
  increase_cpu_bandwidth cur percentage =
      set_cpu_max_cached fl files (cur * (1 + percentage) % 2 ^ 64)

  unfoldable pub decrease_cpu_bandwidth : ℕ → Act (Unit {0})
  unfolding decreased_band
  decrease_cpu_bandwidth percentage = do
    cur ← get_cpu_max_cached fl files
    set_cpu_max_cached fl files (decreased_band cur percentage)

  abbrev pub slack : F
  slack = literal 1 10

  -- The first branch of `feedback`.
  unfoldable pub grow : Act (Unit {0})
  unfolding get_next_pu count_with
  grow = do
    vec ← get_pu_vector fl files
    c ← get
    picked ← in_bounds (get_next_pu c.own vec)
    let new_pu = to_short picked
    (if not (eqb_ℤ new_pu (negsuc 0))
        then (do
          added ← in_bounds (add_pu vec new_pu)
          set_pu_vector fl files added.0
          count_with (increment new_pu))
        else pure tt)

  unfoldable pub feedback : ℤ → Act (Unit {0})
  unfolding grow decrease_cpu_bandwidth
  feedback n =
      if flt (of_ℤ n) (mul (literal 100 1) (sub (literal 1 1) slack))
      then (do grow; set_last_feedback fl files n)
      else if flt (mul (literal 100 1) (add (literal 1 1) slack)) (of_ℤ n)
      then (do decrease_cpu_bandwidth 15; set_last_feedback fl files n)
      else set_last_feedback fl files n
