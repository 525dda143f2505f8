-- ===== src/Cpuset/NormalForm.antt =====
-- The abstract view of ranges: which PUs they hold. Each such set has one canonical vector of ranges,
-- and the conversions of cpusetvector.cpp find it.
use konro.Base.{
  ℕ, zero, suc, ◌≡◌, ◌∙◌, refl, sym, ap, Bool, true, false, arith, some, List, [], ◌∷◌, ◌++◌,
}
use konro.Base.Int.{
  ℤ, pos, negsuc, ◌+ℤ◌, ◌-ℤ◌, ◌≤ℤ◌, ◌<ℤ◌, eqb_ℤ, ltb_ℤ, eqb_ℤ_iff, int_laws, pos_part,
  parts_disjoint,
}
use konro.Base.OrderedSet.{IsAbove}
use konro.Cpuset.{CpusetVector, rounds, to_set, contains_pu, to_cpuset_vector}
use konro.Cpuset.Canonical.{IsSeparated, runs-IsSeparated}
use konro.Cpuset.Members.{mem, mem_above, contains_pu-to_set}
use konro.Cpuset.Ranges.{
  range, expand, runs, ranges, IsNonneg, to_set-expand, to_set-IsSorted, insert_all_sorted,
  to_cpuset_vector-ranges, to_set-ranges, sorted_of_above,
}
use mathlib.Core.Equiv.{IsEquiv, iso_to_equiv}
use mathlib.Core.HLevel.{Σ_prop_path}
use mathlib.Core.Quot
use mathlib.Core.Quot.{Quot, Quot-set}
use native.Mathlib.Bridge.{le_prop}
use native.Mathlib.Nat.{ℕ_set}

-- Sorted lists with the same members are the same.
same_head :
    (x y : ℤ) (xs ys : List ℤ)
    → IsAbove (λ z. z) y ys
    → mem x (x ∷ xs) ≡ mem x (y ∷ ys)
    → ltb_ℤ x y ≡ false
same_head x y xs ys h e = ground (arith, mem_above x y ys, (eqb_ℤ_iff x x).1 refl, eqb_ℤ_iff x y)

same_members :
    (b : ℤ) (xs ys : List ℤ)
    → IsAbove (λ z. z) b xs
    → IsAbove (λ z. z) b ys
    → ((q : ℤ) → mem q xs ≡ mem q ys)
    → xs ≡ ys
same_members b [] [] h k e = refl
same_members b [] (y ∷ ys) h k e = let e' = e y in let r = (eqb_ℤ_iff y y).1 refl in ground arith
same_members b (x ∷ xs) [] h k e = let e' = e x in let r = (eqb_ℤ_iff x x).1 refl in ground arith
same_members b (x ∷ xs) (y ∷ ys) h k e =
    let up = same_head x y xs ys k.1 (e x) in
    let down = same_head y x ys xs h.1 (sym (e y)) in
    let same : x ≡ y = ground (arith, eqb_ℤ_iff x y) in
    ap (λ z. z ∷ xs) same
    ∙ ap (◌∷◌ y) (same_members y xs ys (rw (← same) h.1) k.1 (λ q. tails q (ltb_ℤ y q) refl same))
  where
    tails : (q : ℤ) (t : Bool) → ltb_ℤ y q ≡ t → x ≡ y → mem q xs ≡ mem q ys
    tails q true l same = let e' = e q in ground (arith, eqb_ℤ_iff q x, eqb_ℤ_iff q y)
    tails q false l same = ground (arith, mem_above q x xs, mem_above q y ys)

-- A range in order has one round more than its ends are apart.
span : (a b : ℤ) → a ≤ℤ b → (k : ℕ) × (rounds a b ≡ suc k) × (a +ℤ pos k ≡ b)
unfolding rounds
span a b h =
    let k : ℕ = pos_part (b -ℤ a) in
    (
      k,
      omega (int_laws, parts_disjoint (b +ℤ pos 1 -ℤ a), parts_disjoint (b -ℤ a)),
      omega (int_laws, parts_disjoint (b -ℤ a)),
    )

IsAbove-range :
    (b a : ℤ) (n : ℕ) (s : List ℤ)
    → b <ℤ a
    → IsAbove (λ z. z) (a +ℤ pos n) s
    → IsAbove (λ z. z) b (range a (suc n) ++ s)
unfolding range
IsAbove-range b a zero s h k = let e : a +ℤ pos 0 ≡ a = omega int_laws in (h, rw e at k)
IsAbove-range b a (suc n) s h k =
    let e : a +ℤ pos 1 +ℤ pos n ≡ a +ℤ pos (suc n) = omega int_laws in
    (h, IsAbove-range a (a +ℤ pos 1) n s (omega int_laws) (rw e k))

-- Separated ranges list their PUs in increasing order.
expand-IsAbove : (b : ℤ) (vec : CpusetVector) → IsSeparated b vec → IsAbove (λ z. z) b (expand vec)
expand-IsAbove b [] h = tt
expand-IsAbove b ((first, second) ∷ vec) (l, o, rest) =
    let (k, e, f) = span first second o in
    rw e (
      IsAbove-range b first k (expand vec) (omega int_laws) (rw f (expand-IsAbove second vec rest)))

runs-range :
    (a b : ℤ) (n : ℕ) (s : List ℤ) → runs a b (range (b +ℤ pos 1) n ++ s) ≡ runs a (b +ℤ pos n) s
unfolding range
runs-range a b zero s = ap (λ z. runs a z s) (omega int_laws)
runs-range a b (suc n) s =
    rw ((eqb_ℤ_iff (b +ℤ pos 1) (b +ℤ pos 1)).1 refl)
      (runs-range a (b +ℤ pos 1) n s ∙ ap (λ z. runs a z s) (omega int_laws))

runs_stop :
    (a b : ℤ) (vec : CpusetVector)
    → IsSeparated b vec
    → runs a b (expand vec) ≡ (a, b) ∷ ranges (expand vec)
unfolding range
runs_stop a b [] h = refl
runs_stop a b ((first, second) ∷ vec) (l, o, rest) =
    let (k, e, f) = span first second o in
    let gap : eqb_ℤ first (b +ℤ pos 1) ≡ false = ground (arith, eqb_ℤ_iff first (b +ℤ pos 1)) in
    rw (e, gap) refl

ranges-expand : (b : ℤ) (vec : CpusetVector) → IsSeparated b vec → ranges (expand vec) ≡ vec
unfolding range
ranges-expand b [] h = refl
ranges-expand b ((first, second) ∷ vec) (l, o, rest) =
    let (k, e, f) = span first second o in
    rw e (
      runs-range first first k (expand vec)
      ∙ ap (λ z. runs first z (expand vec)) f
      ∙ runs_stop first second vec rest
      ∙ ap (◌∷◌ (first, second)) (ranges-expand second vec rest))

expand-IsAbove_next :
    (b : ℤ) (vec : CpusetVector) → IsSeparated b vec → IsAbove (λ z. z) (b +ℤ pos 1) (expand vec)
expand-IsAbove_next b [] h = tt
expand-IsAbove_next b ((first, second) ∷ vec) (l, o, rest) =
    let (k, e, f) = span first second o in
    rw e (IsAbove-range (b +ℤ pos 1) first k (expand vec) l (rw f (expand-IsAbove second vec rest)))

IsSeparated-prop : (b : ℤ) (vec : CpusetVector) → IsProp (IsSeparated b vec)
IsSeparated-prop b [] = hlevel
IsSeparated-prop b ((first, second) ∷ vec) = hlevel (le_prop, IsSeparated-prop second vec)

-- Ranges of PUs, none of them negative, and the canonical ones: in order, none empty, no two that
-- overlap or touch.
abbrev pub Ranges : Type 0
Ranges = (vec : CpusetVector) × IsNonneg (to_set vec)

abbrev pub CanonicalRanges : Type 0
CanonicalRanges = (vec : CpusetVector) × IsSeparated (negsuc 1) vec

-- Two vectors hold the same PUs.
abbrev pub SamePus : Ranges → Ranges → Type 0
SamePus v w = (q : ℤ) → contains_pu v.0 q ≡ contains_pu w.0 q

abbrev pub PuSet : Type 0
PuSet = Quot SamePus

CanonicalRanges-ext : (v w : CanonicalRanges) → v.0 ≡ w.0 → v ≡ w
CanonicalRanges-ext v w h = Σ_prop_path (IsSeparated-prop (negsuc 1)) h

ℤ_set : IsSet ℤ
ℤ_set = hlevel ℕ_set

CanonicalRanges-set : IsSet CanonicalRanges
CanonicalRanges-set = hlevel (ℤ_set, IsSeparated-prop)

ranges-IsSeparated : (s : List ℤ) → IsNonneg s → IsSeparated (negsuc 1) (ranges s)
ranges-IsSeparated [] h = tt
ranges-IsSeparated (p ∷ s) h =
    runs-IsSeparated (negsuc 1) p p s (unfold ◌+ℤ◌ in h.0) (omega arith) h.1

abbrev normalize : Ranges → CanonicalRanges
normalize v = (ranges (to_set v.0), ranges-IsSeparated (to_set v.0) v.1)

normalize-SamePus : (v w : Ranges) → SamePus v w → normalize v ≡ normalize w
normalize-SamePus v w h = CanonicalRanges-ext (normalize v) (normalize w) (
    ap ranges (
      same_members (negsuc 0) (to_set v.0) (to_set w.0) v.1 w.1
        (λ q. sym (contains_pu-to_set v.0 q) ∙ h q ∙ contains_pu-to_set w.0 q)))

pub normal_form : PuSet → CanonicalRanges
normal_form = Quot.lift CanonicalRanges-set normalize normalize-SamePus

to_set-canonical : (vec : CpusetVector) → IsSeparated (negsuc 1) vec → to_set vec ≡ expand vec
to_set-canonical vec h =
    to_set-expand vec
    ∙ insert_all_sorted [] (expand vec)
        (sorted_of_above (negsuc 1) (expand vec) (expand-IsAbove (negsuc 1) vec h))

canonical-IsNonneg : (c : CanonicalRanges) → IsNonneg (to_set c.0)
canonical-IsNonneg c =
    rw (to_set-canonical c.0 c.1) (unfold ◌+ℤ◌ in expand-IsAbove_next (negsuc 1) c.0 c.1)

normalize-canonical : (c : CanonicalRanges) → normalize (c.0, canonical-IsNonneg c) ≡ c
normalize-canonical c =
    CanonicalRanges-ext _ c
      (ap ranges (to_set-canonical c.0 c.1) ∙ ranges-expand (negsuc 1) c.0 c.1)

normalize-same : (v : Ranges) → SamePus ((normalize v).0, canonical-IsNonneg (normalize v)) v
normalize-same v q =
    contains_pu-to_set (normalize v).0 q
    ∙ ap (mem q) (to_set-ranges (to_set v.0) (to_set-IsSorted v.0))
    ∙ sym (contains_pu-to_set v.0 q)

-- The sets of PUs that ranges can hold, none of them negative, are the canonical ranges: each set has
-- exactly one canonical vector, and toCpusetVector of toSet finds it from any vector that holds the set.
pub normal_form-IsEquiv :
    IsEquiv normal_form
    × ((v : Ranges) → to_cpuset_vector (to_set v.0) ≡ some (normal_form (Quot.mk v)).0)
unfolding normal_form
normal_form-IsEquiv = (
  (iso_to_equiv (record {
    fun = normal_form;
    inv = λ c. Quot.mk (c.0, canonical-IsNonneg c);
    rinv = normalize-canonical;
    linv = Quot.ind (λ q. Quot-set _ _) (λ v. Quot.sound (normalize-same v));
  })).1,
  λ v. to_cpuset_vector-ranges (to_set v.0) v.1,
)
