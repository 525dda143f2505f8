-- ===== src/Cpuset/Ranges.antt =====
-- The conversions of cpusetvector.cpp between ranges, vectors and sets.
use konro.Base.{
  ℕ, zero, suc, ◌≡◌, ◌∙◌, refl, sym, ap, inl, inr, true, arith, some, List, [], ◌∷◌, ◌++◌,
  append_assoc, append-nil, if◌then◌else◌, Bool-cases,
}
use konro.Base.Int.{
  ℤ, pos, negsuc, ◌+ℤ◌, ◌-ℤ◌, ◌≤ℤ◌, ◌<ℤ◌, eqb_ℤ, int_laws, eqb_ℤ_iff, parts_disjoint,
}
use konro.Base.OrderedSet.{insert, insert_key, IsAbove, IsSortedKey, insert-IsSorted}
use konro.Cpuset.{
  CpusetVector, rounds, insert_range, to_set_from, to_set, push_range, to_vector_from, to_vector,
  set_last, collect, to_cpuset_vector,
}

-- n numbers from i on
unfoldable pub range : ℤ → ℕ → List ℤ
range i zero = []
range i (suc n) = i ∷ range (i +ℤ pos 1) n

-- The numbers that ranges stand for, one range after the other.
abbrev pub expand : CpusetVector → List ℤ
expand [] = []
expand ((first, second) ∷ vec) = range first (rounds first second) ++ expand vec

push_range-range : (i : ℤ) (n : ℕ) (res : List ℤ) → push_range i n res ≡ res ++ range i n
unfolding push_range range
push_range-range i zero res = sym (append-nil res)
push_range-range i (suc n) res =
    push_range-range (i +ℤ pos 1) n (res ++ i ∷ []) ∙ append_assoc res (i ∷ []) _

to_vector_from-expand :
    (res : List ℤ) (vec : CpusetVector) → to_vector_from res vec ≡ res ++ expand vec
unfolding to_vector_from
to_vector_from-expand res [] = sym (append-nil res)
to_vector_from-expand res ((first, second) ∷ vec) = rw push_range-range (
    to_vector_from-expand (res ++ range first (rounds first second)) vec
    ∙ append_assoc res _ (expand vec))

pub to_vector-expand : (vec : CpusetVector) → to_vector vec ≡ expand vec
unfolding to_vector
to_vector-expand vec = to_vector_from-expand [] vec

abbrev pub insert_all : List ℤ → List ℤ → List ℤ
insert_all res [] = res
insert_all res (x ∷ xs) = insert_all (insert_key x res) xs

insert_all-append :
    (res xs ys : List ℤ) → insert_all res (xs ++ ys) ≡ insert_all (insert_all res xs) ys
insert_all-append res [] ys = refl
insert_all-append res (x ∷ xs) ys = insert_all-append (insert_key x res) xs ys

insert_range-range :
    (i : ℤ) (n : ℕ) (res : List ℤ) → insert_range i n res ≡ insert_all res (range i n)
unfolding insert_range range
insert_range-range i zero res = refl
insert_range-range i (suc n) res = insert_range-range (i +ℤ pos 1) n (insert_key i res)

to_set_from-expand :
    (res : List ℤ) (vec : CpusetVector) → to_set_from res vec ≡ insert_all res (expand vec)
unfolding to_set_from
to_set_from-expand res [] = refl
to_set_from-expand res ((first, second) ∷ vec) = rw insert_range-range (
    to_set_from-expand (insert_all res (range first (rounds first second))) vec
    ∙ sym (insert_all-append res (range first (rounds first second)) (expand vec)))

pub to_set-expand : (vec : CpusetVector) → to_set vec ≡ insert_all [] (expand vec)
unfolding to_set
to_set-expand vec = to_set_from-expand [] vec

insert_all-IsSorted : (res xs : List ℤ) → IsSortedKey res → IsSortedKey (insert_all res xs)
insert_all-IsSorted res [] s = s
insert_all-IsSorted res (x ∷ xs) s =
    insert_all-IsSorted (insert_key x res) xs
      (unfold insert_key in insert-IsSorted (λ y. y) x res s)

-- A set is sorted, whatever the ranges are.
pub to_set-IsSorted : (vec : CpusetVector) → IsSortedKey (to_set vec)
to_set-IsSorted vec = rw to_set-expand (insert_all-IsSorted [] (expand vec) tt)

above_mid : (b x : ℤ) (pre s : List ℤ) → IsAbove (λ y. y) b (pre ++ x ∷ s) → b <ℤ x
above_mid b x [] s h = h.0
above_mid b x (y ∷ pre) s h = omega (arith, above_mid y x pre s h.1)

pub sorted_of_above : (b : ℤ) (s : List ℤ) → IsAbove (λ y. y) b s → IsSortedKey s
sorted_of_above b [] h = tt
sorted_of_above b (x ∷ s) h = h.1

insert_end :
    (x : ℤ) (pre s : List ℤ) → IsSortedKey (pre ++ x ∷ s) → insert_key x pre ≡ pre ++ x ∷ []
unfolding insert_key insert
insert_end x [] s h = refl
insert_end x (y ∷ pre) s h =
    ground (arith, above_mid y x pre s h, insert_end x pre s (sorted_of_above y _ h))

pub insert_all_sorted : (pre s : List ℤ) → IsSortedKey (pre ++ s) → insert_all pre s ≡ pre ++ s
insert_all_sorted pre [] h = sym (append-nil pre)
insert_all_sorted pre (x ∷ s) h =
    rw (insert_end x pre s h)
      (insert_all_sorted (pre ++ x ∷ []) s (rw append_assoc h) ∙ append_assoc pre (x ∷ []) s)

-- The ranges of a sorted list, the first of which has begun at a and come to b.
abbrev pub runs : ℤ → ℤ → List ℤ → CpusetVector
runs a b [] = (a, b) ∷ []
runs a b (p ∷ s) = if eqb_ℤ p (b +ℤ pos 1) then runs a p s else (a, b) ∷ runs p p s

set_last-append :
    (res : CpusetVector) (a b p : ℤ) → set_last (res ++ (a, b) ∷ []) p ≡ some (res ++ (a, p) ∷ [])
unfolding set_last
set_last-append [] a b p = refl
set_last-append (r ∷ []) a b p = refl
set_last-append (r ∷ s ∷ res) a b p = rw (set_last-append (s ∷ res) a b p)

collect-runs :
    (res : CpusetVector) (a b : ℤ) (s : List ℤ)
    → collect b (res ++ (a, b) ∷ []) s ≡ some (res ++ runs a b s)
unfolding collect
collect-runs res a b [] = refl
collect-runs res a b (p ∷ s) = elim (Bool-cases (eqb_ℤ p (b +ℤ pos 1))) [
  | inl e ↦ rw (e, set_last-append res a b p) (collect-runs res a p s)
  | inr e ↦ rw e (
      collect-runs (res ++ (a, b) ∷ []) p p s
      ∙ ap some (append_assoc res ((a, b) ∷ []) (runs p p s)))
]

-- No number is negative.
abbrev pub IsNonneg : List ℤ → Type 0
IsNonneg s = IsAbove (λ x. x) (negsuc 0) s

abbrev pub ranges : List ℤ → CpusetVector
ranges [] = []
ranges (p ∷ s) = runs p p s

pub to_cpuset_vector-ranges : (s : List ℤ) → IsNonneg s → to_cpuset_vector s ≡ some (ranges s)
unfolding to_cpuset_vector ◌+ℤ◌
to_cpuset_vector-ranges [] h = refl
to_cpuset_vector-ranges (p ∷ s) h = ground (arith, collect-runs [] p p s)

range_snoc : (a : ℤ) (n : ℕ) → range a (suc n) ≡ range a n ++ (a +ℤ pos n) ∷ []
unfolding range
range_snoc a zero = ap (λ x. x ∷ []) (omega int_laws)
range_snoc a (suc n) =
    ap (◌∷◌ a)
      (range_snoc (a +ℤ pos 1) n ∙ ap (λ x. range (a +ℤ pos 1) n ++ x ∷ []) (omega int_laws))

pub rounds_lem : (a b : ℤ) → a ≤ℤ b → a +ℤ pos (rounds a b) ≡ b +ℤ pos 1
unfolding rounds
rounds_lem a b h = omega (int_laws, parts_disjoint (b +ℤ pos 1 -ℤ a))

pub rounds_one : (p : ℤ) → rounds p p ≡ 1
unfolding rounds
rounds_one p = omega (int_laws, parts_disjoint (p +ℤ pos 1 -ℤ p))

next_le : (a b p : ℤ) → a ≤ℤ b → eqb_ℤ p (b +ℤ pos 1) ≡ true → a ≤ℤ p
next_le a b p h e = let q = (eqb_ℤ_iff p (b +ℤ pos 1)).0 e in rw q (omega int_laws)

pub rounds-next : (a b : ℤ) → a ≤ℤ b → rounds a (b +ℤ pos 1) ≡ suc (rounds a b)
unfolding rounds
rounds-next a b h =
    omega (int_laws, parts_disjoint (b +ℤ pos 1 -ℤ a), parts_disjoint (b +ℤ pos 1 +ℤ pos 1 -ℤ a))

widened :
    (a b p : ℤ) (s : List ℤ)
    → a ≤ℤ b
    → eqb_ℤ p (b +ℤ pos 1) ≡ true
    → range a (rounds a p) ++ s ≡ range a (rounds a b) ++ p ∷ s
widened a b p s h e =
    let q = (eqb_ℤ_iff p (b +ℤ pos 1)).0 e in
    rw (q, rounds-next a b h, range_snoc a (rounds a b), rounds_lem a b h)
      (append_assoc (range a (rounds a b)) ((b +ℤ pos 1) ∷ []) s)

expand-runs : (a b : ℤ) (s : List ℤ) → a ≤ℤ b → expand (runs a b s) ≡ range a (rounds a b) ++ s
unfolding range
expand-runs a b [] h = refl
expand-runs a b (p ∷ s) h = elim (Bool-cases (eqb_ℤ p (b +ℤ pos 1))) [
  | inl e ↦ rw e (expand-runs a p s (next_le a b p h e) ∙ widened a b p s h e)
  | inr e ↦ rw e (
      ap (λ x. range a (rounds a b) ++ x)
        (expand-runs p p s (omega arith) ∙ rw (rounds_one p) refl))
]

pub expand-ranges : (s : List ℤ) → expand (ranges s) ≡ s
unfolding range
expand-ranges [] = refl
expand-ranges (p ∷ s) = expand-runs p p s (omega arith) ∙ rw (rounds_one p) refl

-- The ranges of a set stand for the set, which both conversions back give.
pub to_set-ranges : (s : List ℤ) → IsSortedKey s → to_set (ranges s) ≡ s
to_set-ranges s h = rw (to_set-expand (ranges s), expand-ranges s) (insert_all_sorted [] s h)

pub to_vector-ranges : (s : List ℤ) → to_vector (ranges s) ≡ s
to_vector-ranges s = to_vector-expand (ranges s) ∙ expand-ranges s

-- A set of PUs, none of them negative, is turned into ranges, and the conversions of the ranges to
-- a set and to a vector give the set back.
pub to_set-to_cpuset_vector :
    (s : List ℤ)
    → IsNonneg s
    → (vec : CpusetVector) × (to_cpuset_vector s ≡ some vec)
      × (to_set vec ≡ s)
      × (to_vector vec ≡ s)
to_set-to_cpuset_vector s h = (
  ranges s,
  to_cpuset_vector-ranges s h,
  to_set-ranges s (sorted_of_above (negsuc 0) s h),
  to_vector-ranges s,
)
