-- ===== src/Konrolib/Feedback.antt =====
-- What computeFeedback answers.
use konro.Base.{ℕ, zero, suc, ◌*◌, ◌/◌, ◌<◌, ◌≡◌, ◌↔◌, refl, true, some, min, arith}
use konro.Base.Int.{pos, eqb_ℤ, eqb_ℤ_iff, hundred, to_int, to_int-small}
use konro.Konrolib.{quotient, compute_feedback}
use native.Mathlib.Nat.{div-lt_iff_lt-mul}

quotient_pos : (a b : ℕ) → 0 < b → quotient (pos a) (pos b) ≡ some (pos (a / b))
unfolding quotient
quotient_pos a zero h = absurd (omega arith)
quotient_pos a (suc b) h = refl

-- Below 21474837, where the product fits an int, and for a positive target the feedback is the
-- percentage of the target that is reached, 200 at most; it is below 100 exactly where the value is
-- below the target.
pub compute_feedback_lem :
    (cur target : ℕ)
    → cur < 21474837
    → 0 < target
    → (compute_feedback (pos cur) (pos target) ≡ some (pos (min 200 (cur * 100 / target))))
      × ((min 200 (cur * 100 / target) < 100) ↔ (cur < target))
unfolding compute_feedback hundred
compute_feedback_lem cur target small positive =
    let fits : eqb_ℤ (to_int (pos (cur * 100))) (pos (cur * 100)) ≡ true =
      (eqb_ℤ_iff _ _).1 (to_int-small (cur * 100) (omega arith)) in
    let q : (cur * 100 / target < 100) ↔ (cur * 100 < 100 * target) = div-lt_iff_lt-mul positive in
    (
      rw (fits, quotient_pos (cur * 100) target positive) (ground arith),
      (
        λ h. let h' : cur * 100 < 100 * target = q.0 (omega arith) in omega arith,
        λ h. let h' : cur * 100 / target < 100 = q.1 (omega arith) in omega arith,
      ),
    )
