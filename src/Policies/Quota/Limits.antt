-- ===== src/Policies/Quota/Limits.antt =====
-- The conversion of the limits of the quota functions to uint64_t, on which the functions compare and
-- store them.
use konro.Base.{ℕ, ◌≤◌, ◌≡◌, sym, ap, subst, false, leb, arith, Bool-cases, inl, inr}
use konro.Base.Int.{ℤ, pos, negsuc, ltb_ℤ, ◌≤ℤ◌, ◌<ℤ◌, ◌-ℤ◌, hundred, min_ℤ, max_ℤ, to_uint64}

to_uint64-pos : (n : ℕ) → n ≤ 2147483647 → to_uint64 (pos n) ≡ n
unfolding to_uint64
to_uint64-pos n h = omega arith

-- The conversion leaves a value between 0 and the largest int as it is.
uint_of_int : (z : ℤ) → pos 0 ≤ℤ z → z ≤ℤ pos 2147483647 → pos (to_uint64 z) ≡ z
uint_of_int (pos n) h k = ap pos (to_uint64-pos n (omega arith))
uint_of_int (negsuc n) h k = absurd (omega arith)

pub raised_lem :
    (new limit : ℤ)
    → pos 0 ≤ℤ new
    → pos 0 ≤ℤ limit
    → limit ≤ℤ pos 2147483647
    → pos (to_uint64 (min_ℤ new limit)) ≤ℤ limit
raised_lem new limit h k b = elim (Bool-cases (ltb_ℤ limit new)) [
  | inl e ↦ rw e (subst (λ x. x ≤ℤ limit) (sym (uint_of_int limit k b)) (omega arith))
  | inr e ↦
      let l : new ≤ℤ limit = ground arith in
      rw e (subst (λ x. x ≤ℤ limit) (sym (uint_of_int new h (omega arith))) l)
]

pub lowered_lem :
    (new limit : ℤ)
    → new ≤ℤ pos 2147483647
    → limit ≤ℤ pos 2147483647
    → limit ≤ℤ pos (to_uint64 (max_ℤ new limit))
lowered_lem new (negsuc n) h k = omega arith
lowered_lem new (pos n) h k = elim (Bool-cases (ltb_ℤ new (pos n))) [
  | inl e ↦ rw e (rw (to_uint64-pos n (omega arith)) (omega arith))
  | inr e ↦
      let l : pos n ≤ℤ new = ground arith in
      rw e (subst (λ x. pos n ≤ℤ x) (sym (uint_of_int new (ground arith) h)) l)
]

pub hundred-int :
    (z : ℤ)
    → pos 0 ≤ℤ z
    → z ≤ℤ pos 21474836
    → (pos 0 ≤ℤ hundred z)
      × (hundred z ≤ℤ pos 2147483647)
      × (hundred (z -ℤ pos 1) ≤ℤ pos 2147483647)
unfolding hundred ◌-ℤ◌
hundred-int z h k = ground arith

pub below_limit :
    (limit : ℤ) (n : ℕ)
    → pos 0 ≤ℤ limit
    → limit ≤ℤ pos 2147483647
    → leb (to_uint64 limit) n ≡ false
    → pos n <ℤ limit
below_limit limit n h k e = let u = uint_of_int limit h k in ground arith
