-- ===== src/Float.antt =====
-- The C++ type float, which the program computes with and does not implement: its values and its
-- operations are a parameter of the definitions that use them. Comparisons are Boolean tests, false
-- where an operand is not a number.
use konro.Base.{ℕ, ◌+◌, ◌-◌, ◌*◌, ◌/◌, Bool, true, leb, ltb, min}
use konro.Base.Int.{ℤ, pos, pos_part}

pub record Float : Type 1 where
  pub F : Type 0
  -- the literal n / d
  pub literal : ℕ → ℕ → F
  -- the conversions of an unsigned integer and of an int
  pub of_ℕ : ℕ → F
  pub of_ℤ : ℤ → F
  pub add : F → F → F
  pub sub : F → F → F
  pub mul : F → F → F
  pub div : F → F → F
  pub neg : F → F
  -- std::sqrt and std::exp
  pub sqrt : F → F
  pub exp : F → F
  -- std::isfinite
  pub is_finite : F → Bool
  -- x < y and x >= y
  pub flt : F → F → Bool
  pub fge : F → F → Bool
  -- static_cast<int>
  pub trunc : F → ℤ

-- Hundredths, at which the theorems are tried.
abbrev pub hundredths : Float
hundredths = record {
  F = ℕ;
  literal = λ n d. n * 100 / d;
  of_ℕ = λ n. n * 100;
  of_ℤ = λ z. pos_part z * 100;
  add = λ x y. x + y;
  sub = λ x y. x - y;
  mul = λ x y. x * y / 100;
  div = λ x y. x * 100 / y;
  neg = λ x. 0;
  sqrt = λ x. x;
  exp = λ x. 0;
  is_finite = λ x. true;
  flt = λ x y. ltb x y;
  fge = λ x y. leb y x;
  trunc = λ x. pos (min (x / 100) 2147483647);
}
