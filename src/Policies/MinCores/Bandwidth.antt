-- ===== src/Policies/MinCores/Bandwidth.antt =====
-- How far MinCoresPolicy lowers the limit of cpu.max, and what growing leaves alone.
use konro.Base.{ℕ, zero, suc, ◌-◌, ◌*◌, ◌/◌, ◌%◌, ◌^◌, ◌≤◌, min, ◌<◌, ◌≡◌, refl, arith, ◌==◌, false}
use konro.Base.Int.{ℤ, pos, to_int, to_int-small, to_uint64}
use konro.AppMapping.{numeric_max, CgroupFiles, Context, set_last_feedback}
use konro.AppMapping.Frame.{Keeps, then-Keeps, if-Keeps, update-Keeps}
use konro.Float.{Float}
use konro.Policies.MinCores.Frame.{grow-Keeps}
use konro.Policies.MinCores.{MinCoresPolicy, decreased_band, slack, feedback}

small_lem : (n : ℕ) → n < 2147483648 → to_uint64 (to_int (pos n)) ≡ n
unfolding to_uint64
small_lem n h = rw (to_int-small n h) (ground arith)

decreased_lem : (cur : ℕ) → cur < 2147483648 → decreased_band cur 15 ≡ cur - cur * 15 / 100
unfolding decreased_band
decreased_lem cur h =
    let no_max : (cur == numeric_max) ≡ false = ground arith in
    let no_wrap : cur * 15 % 2 ^ 64 ≡ cur * 15 = ground arith in
    rw (no_max, no_wrap) (small_lem (cur - cur * 15 / 100) (omega arith))

-- The band after n decreases by 15 percent.
pub decreased_bands : ℕ → ℕ → ℕ
decreased_bands zero cur = cur
decreased_bands (suc n) cur = decreased_bands n (decreased_band cur 15)

-- However often a limit below 2 ^ 31 is lowered, it does not grow, and it never gets from 6 or more to
-- less than 6: the app is left some time of the CPU.
decreased_bands-bounds :
    (n cur : ℕ)
    → cur < 2147483648
    → (decreased_bands n cur ≤ cur) × (min cur 6 ≤ decreased_bands n cur)
unfolding decreased_bands
decreased_bands-bounds zero cur h = (omega arith, ground arith)
decreased_bands-bounds (suc n) cur h =
    let next : ℕ = cur - cur * 15 / 100 in
    let ih = decreased_bands-bounds n next (omega arith) in
    rw (decreased_lem cur h) (omega (arith, ih.0), ground (arith, ih.1))

module _ (fl : Float) (files : CgroupFiles) where
  open fl use {literal, of_ℤ, mul, add, flt}

  -- A feedback that is not above the upper limit leaves the limit of cpu.max as it was, on every exit,
  -- however the files answer.
  pub feedback-cpu_max :
      (n : ℤ) (c : Context fl files MinCoresPolicy)
      → flt (mul (literal 100 1) (add (literal 1 1) (slack fl files))) (of_ℤ n) ≡ false
      → (feedback fl files n c).1.mapping.cpu_max ≡ c.mapping.cpu_max
  unfolding feedback
  feedback-cpu_max n c h =
      rw h ((if-Keeps _ (then-Keeps (grow-Keeps (λ vec m. refl)) last) last).kept c)
    where
      last : Keeps fl files MinCoresPolicy (λ m. m.cpu_max) (set_last_feedback fl files n)
      last =
          unfold set_last_feedback in update-Keeps (λ m. record m { last_feedback = n }) (λ m. refl)
