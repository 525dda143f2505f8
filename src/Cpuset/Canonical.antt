-- ===== src/Cpuset/Canonical.antt =====
-- The ranges that the conversion makes are the canonical ones, and their PUs are counted right.
use konro.Base.{
  ℕ, zero, suc, ◌+◌, ◌<◌, ◌≡◌, ◌∙◌, refl, ap, inl, inr, arith, some, List, [], ◌∷◌, Bool-cases,
  length, length-append, All,
}
use konro.Base.Int.{
  ℤ, pos, ◌+ℤ◌, ◌-ℤ◌, ◌≤ℤ◌, ◌<ℤ◌, eqb_ℤ, int_laws, +ℤ_parts, parts_disjoint, to_short-small,
}
use konro.Base.OrderedSet.{IsAbove}
use konro.Cpuset.{CpusetVector, rounds, to_vector, to_cpuset_vector, count_from, count_pus}
use konro.Cpuset.Ranges.{range, expand, runs, IsNonneg, to_cpuset_vector-ranges, to_vector-expand}

-- Each range is in order, and begins more than one above the end of the one before it.
abbrev pub IsSeparated : ℤ → CpusetVector → Type 0
IsSeparated b [] = Unit {0}
IsSeparated b ((first, second) ∷ vec) =
    (b +ℤ pos 1 <ℤ first) × (first ≤ℤ second) × IsSeparated second vec

abbrev pub IsCanonical : CpusetVector → Type 0
IsCanonical [] = Unit {0}
IsCanonical ((first, second) ∷ vec) = (first ≤ℤ second) × IsSeparated second vec

pub runs-IsSeparated :
    (c a b : ℤ) (s : List ℤ)
    → c +ℤ pos 1 <ℤ a
    → a ≤ℤ b
    → IsAbove (λ x. x) b s
    → IsSeparated c (runs a b s)
runs-IsSeparated c a b [] l h k = (l, h, tt)
runs-IsSeparated c a b (p ∷ s) l h k = elim (Bool-cases (eqb_ℤ p (b +ℤ pos 1))) [
  | inl e ↦ rw e (runs-IsSeparated c a p s l (omega arith) k.1)
  | inr e ↦
      rw e
        (l, h, runs-IsSeparated b p p s (ground (arith, k.0, +ℤ_parts b (pos 1))) (omega arith) k.1)
]

runs-IsCanonical : (a b : ℤ) (s : List ℤ) → a ≤ℤ b → IsAbove (λ x. x) b s → IsCanonical (runs a b s)
runs-IsCanonical a b [] h k = (h, tt)
runs-IsCanonical a b (p ∷ s) h k = elim (Bool-cases (eqb_ℤ p (b +ℤ pos 1))) [
  | inl e ↦ rw e (runs-IsCanonical a p s (omega arith) k.1)
  | inr e ↦
      rw e (h, runs-IsSeparated b p p s (ground (arith, k.0, +ℤ_parts b (pos 1))) (omega arith) k.1)
]

-- A set with no negative number becomes ranges in order, of which no two overlap or touch.
to_cpuset_vector-IsCanonical :
    (s : List ℤ)
    → IsNonneg s
    → (vec : CpusetVector) × (to_cpuset_vector s ≡ some vec) × IsCanonical vec
to_cpuset_vector-IsCanonical [] h = ([], to_cpuset_vector-ranges [] h, tt)
to_cpuset_vector-IsCanonical (p ∷ s) h =
    (runs p p s, to_cpuset_vector-ranges (p ∷ s) h, runs-IsCanonical p p s (omega arith) h.1)

length-range : (a : ℤ) (n : ℕ) → length (range a n) ≡ n
unfolding range
length-range a zero = refl
length-range a (suc n) = ap suc (length-range (a +ℤ pos 1) n)

-- A range is not empty, or ends right before it begins.
abbrev pub IsOrdered : ℤ × ℤ → Type 0
IsOrdered (first, second) = first ≤ℤ second +ℤ pos 1

rounds_ordered : (a b : ℤ) → IsOrdered (a, b) → b -ℤ a +ℤ pos 1 ≡ pos (rounds a b)
unfolding rounds
rounds_ordered a b h =
    omega (int_laws, parts_disjoint (b +ℤ pos 1 -ℤ a), parts_disjoint (b -ℤ a +ℤ pos 1))

count_from-expand :
    (n : ℕ) (vec : CpusetVector)
    → All IsOrdered vec
    → n + length (expand vec) < 32768
    → count_from (pos n) vec ≡ pos (n + length (expand vec))
unfolding count_from
count_from-expand n [] o h = ap pos (omega arith)
count_from-expand n ((a, b) ∷ vec) o h =
    let k = rounds a b in
    let parts = length-append (range a k) (expand vec) in
    rw (to_short-small n (omega arith), rounds_ordered a b o.0, sum_pos n k)
      (count_from-expand (n + k) vec o.1 (omega (arith, parts, length-range a k))
        ∙ ap pos (omega (arith, parts, length-range a k)))
  where
    sum_pos : (m k : ℕ) → pos m +ℤ pos k ≡ pos (m + k)
    sum_pos m k = omega int_laws

-- While the total fits a short, the count is the number of PUs that the vector lists.
count_pus-length :
    (vec : CpusetVector)
    → All IsOrdered vec
    → length (to_vector vec) < 32768
    → count_pus vec ≡ pos (length (to_vector vec))
unfolding count_pus
count_pus-length vec o h =
    let e = ap length (to_vector-expand vec) in
    rw to_vector-expand (count_from-expand 0 vec o (omega (arith, h, e)) ∙ ap pos (omega arith))
