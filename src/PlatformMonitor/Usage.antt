-- ===== src/PlatformMonitor/Usage.antt =====
-- The percentages of use.
use konro.Base.{ℕ, zero, suc, ◌-◌, ◌*◌, ◌/◌, ◌^◌, ◌≤◌, ◌<◌, ◌≡◌, refl, arith, some}
use konro.Base.Int.{pos, ◌-ℤ◌, hundred, to_int, to_int-small}
use native.Mathlib.Nat.{div-le_of_le-mul}
use konro.PlatformMonitor.{CpuTimeData, sub_64, in_int, usage, usage_of}

delta_lem :
    (a b : ℕ) → b ≤ a → a - b < 2147483648 → a < 2 ^ 64 → to_int (pos (sub_64 a b)) ≡ pos (a - b)
delta_lem a b h k l =
    let diff : sub_64 a b ≡ a - b = ground arith in rw diff (to_int-small (a - b) k)

minus_lem : (a b : ℕ) → b ≤ a → pos a -ℤ pos b ≡ pos (a - b)
unfolding ◌-ℤ◌
minus_lem a b h = ground arith

in_int-small : (n : ℕ) → n < 2147483648 → in_int (pos n) ≡ some (pos n)
unfolding in_int
in_int-small n h = ground arith

usage_of_lem :
    (d i : ℕ)
    → 0 < d
    → i ≤ d
    → d < 21474837
    → usage_of (pos d) (pos i) ≡ some (pos ((d - i) * 100 / d))
unfolding usage_of hundred
usage_of_lem zero i p h k = absurd (omega arith)
usage_of_lem (suc d) i p h k =
    rw
      (
        usage_of,
        minus_lem (suc d) i h,
        in_int-small (suc d - i) (omega arith),
        in_int-small ((suc d - i) * 100) (omega arith),
      )
      refl

-- Where time has passed between two snapshots, not more of it idle than there is, and less than
-- 21474837 ticks, the use is defined and is a percentage: the part of the time that was not idle,
-- rounded down.
pub usage-percent :
    (now before : CpuTimeData)
    → before.totaltime < now.totaltime
    → before.idletime ≤ now.idletime
    → now.idletime - before.idletime ≤ now.totaltime - before.totaltime
    → now.totaltime - before.totaltime < 21474837
    → now.totaltime < 2 ^ 64
    → now.idletime < 2 ^ 64
    → let d = now.totaltime - before.totaltime in
      let i = now.idletime - before.idletime in
      (usage now before ≡ some (pos ((d - i) * 100 / d))) × ((d - i) * 100 / d ≤ 100)
unfolding usage
usage-percent now before t i p b k l = (
  rw
      (
        delta_lem now.totaltime before.totaltime (omega arith) (omega arith) k,
        delta_lem now.idletime before.idletime i (omega arith) l,
      )
      (usage_of_lem _ _ (omega arith) p b),
  div-le_of_le-mul (now.totaltime - before.totaltime) (omega arith),
)
