-- ===== src/Policies/Quota.antt =====
-- increaseCPUquota and decreaseCPUquota of rm/policymanager/policies/puprogressivepolicy.cpp.
-- securityawarepolicy.cpp holds the same two functions again, without the log lines.
pub mod Frame
pub mod Limits
pub mod Bounds
use konro.Base.{ℕ, Bool, true, false, ◌||◌, leb, ◌==◌, if◌then◌else◌}
use konro.Base.Int.{ℤ, pos, ◌-ℤ◌, hundred, min_ℤ, max_ℤ, to_uint64}
use konro.AppMapping.{
  numeric_max, CgroupFiles, Context, count_pus, get_cpu_max_cached, set_cpu_max_cached,
}
use konro.Effect.{M, Exit, ok, exception, undefined, continue, ◌>>=◌, ◌>>◌, pure}
use konro.Float.{Float}

-- The band as a number: where it is `max`, 100 % of each PU.
abbrev pub band_of : ℕ → ℤ → ℕ
band_of read pus = if read == numeric_max then to_uint64 (hundred pus) else read

abbrev pub is_low : ℕ → ℤ → Bool
is_low cur_band min_band = leb cur_band (to_uint64 min_band) || leb cur_band 0

module _ (fl : Float) (files : CgroupFiles) {Own : Type 0} where
  open fl use {F, literal, of_ℕ, add, sub, mul, trunc}

  -- The branch of `increaseCPUquota` below the limit of the PUs that the app has.
  unfoldable pub raise_band : ℕ → ℤ → F → M (Context fl files Own) Bool
  raise_band cur_band max_band scale = do
    let new_band = trunc (mul (of_ℕ cur_band) (add (literal 1 1) scale))
    set_cpu_max_cached fl files (to_uint64 (min_ℤ new_band max_band))
    pure true

  -- A comparison of a NumericValue with an int compares them as uint64_t.
  unfoldable pub increase_cpu_quota : F → M (Context fl files Own) Bool
  unfolding raise_band
  increase_cpu_quota scale = do
    cur_band ← get_cpu_max_cached fl files
    pus ← count_pus fl files
    (if cur_band == numeric_max
        then pure false
        else if leb (to_uint64 (hundred pus)) cur_band
        then pure false
        else raise_band cur_band (hundred pus) scale)

  unfoldable pub lower_band : ℕ → ℤ → F → M (Context fl files Own) Bool
  lower_band cur_band min_band scale = do
    let new_band = trunc (mul (of_ℕ cur_band) (sub (literal 1 1) scale))
    set_cpu_max_cached fl files (to_uint64 (max_ℤ new_band min_band))
    pure true

  unfoldable pub decrease_cpu_quota : F → M (Context fl files Own) Bool
  unfolding lower_band
  decrease_cpu_quota scale = do
    read ← get_cpu_max_cached fl files
    pus ← count_pus fl files
    (if is_low (band_of read pus) (hundred (pus -ℤ pos 1))
        then pure false
        else lower_band (band_of read pus) (hundred (pus -ℤ pos 1)) scale)
