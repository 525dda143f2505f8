-- ===== src/Cpuset/Members.antt =====
-- Which processing units a vector of ranges holds, and what `addPU` and `removePU` change.
use konro.Base.{
  ℕ, zero, suc, ◌≡◌, ◌∙◌, refl, sym, ap, inl, inr, Bool, true, false, not, arith, some, List, [],
  ◌∷◌, ◌++◌, Bool-cases, ◌||◌, ◌&&◌,
}
use konro.Base.Int.{
  ℤ, pos, negsuc, ◌+ℤ◌, ◌-ℤ◌, ◌≤ℤ◌, ◌<ℤ◌, eqb_ℤ, leb_ℤ, ltb_ℤ, int_laws, +ℤ_parts, parts_disjoint,
}
use konro.Base.OrderedSet.{
  insert, erase, insert_key, erase_key, IsAbove, IsSortedKey, insert-IsAbove, erase-IsAbove,
}
use konro.Cpuset.{CpusetVector, rounds, to_set, contains_pu, add_pu, remove_pu}
use konro.Cpuset.Ranges.{
  range, expand, insert_all, to_set-expand, to_set-IsSorted, IsNonneg, ranges, to_set-ranges,
  rounds_lem, to_cpuset_vector-ranges, sorted_of_above,
}

abbrev pub mem : ℤ → List ℤ → Bool
mem q [] = false
mem q (x ∷ xs) = eqb_ℤ q x || mem q xs

mem-append : (q : ℤ) (xs ys : List ℤ) → mem q (xs ++ ys) ≡ (mem q xs || mem q ys)
mem-append q [] ys = refl
mem-append q (x ∷ xs) ys = ground (arith, mem-append q xs ys)

mem-insert : (q p : ℤ) (s : List ℤ) → mem q (insert_key p s) ≡ (eqb_ℤ q p || mem q s)
unfolding insert_key insert
mem-insert q p [] = refl
mem-insert q p (x ∷ s) = ground (arith, mem-insert q p s)

mem-insert_all : (q : ℤ) (res xs : List ℤ) → mem q (insert_all res xs) ≡ (mem q res || mem q xs)
mem-insert_all q res [] = ground arith
mem-insert_all q res (x ∷ xs) =
    ground (arith, mem-insert_all q (insert_key x res) xs, mem-insert q x res)

mem-range : (q a : ℤ) (n : ℕ) → mem q (range a n) ≡ (leb_ℤ a q && ltb_ℤ q (a +ℤ pos n))
unfolding range
mem-range q a zero = ground (arith, +ℤ_parts a (pos 0))
mem-range q a (suc n) = ground (
  arith,
  mem-range q (a +ℤ pos 1) n,
  +ℤ_parts a (pos 1),
  +ℤ_parts a (pos (suc n)),
  +ℤ_parts (a +ℤ pos 1) (pos n),
)

rounds_empty : (a b : ℤ) → b <ℤ a → rounds a b ≡ 0
unfolding rounds
rounds_empty a b h = omega (int_laws, parts_disjoint (b +ℤ pos 1 -ℤ a))

mem-rounds : (q a b : ℤ) → mem q (range a (rounds a b)) ≡ (leb_ℤ a q && leb_ℤ q b)
mem-rounds q a b = elim (Bool-cases (leb_ℤ a b)) [
  | inl e ↦
      mem-range q a (rounds a b)
      ∙ rw (rounds_lem a b (ground arith)) (ground (arith, +ℤ_parts b (pos 1)))
  | inr e ↦ rw (rounds_empty a b (ground arith)) (unfold range in ground arith)
]

pub contains_pu-expand : (vec : CpusetVector) (q : ℤ) → contains_pu vec q ≡ mem q (expand vec)
unfolding contains_pu
contains_pu-expand [] q = refl
contains_pu-expand ((a, b) ∷ vec) q = ground (
  arith,
  mem-append q (range a (rounds a b)) (expand vec),
  mem-rounds q a b,
  contains_pu-expand vec q,
)

-- The test on the ranges is membership in the set that they stand for.
pub contains_pu-to_set : (vec : CpusetVector) (q : ℤ) → contains_pu vec q ≡ mem q (to_set vec)
contains_pu-to_set vec q =
    contains_pu-expand vec q ∙ rw to_set-expand (sym (mem-insert_all q [] (expand vec)))

pub mem_above : (q b : ℤ) (s : List ℤ) → IsAbove (λ x. x) b s → q ≤ℤ b → mem q s ≡ false
mem_above q b [] h k = refl
mem_above q b (x ∷ s) h k = ground (arith, mem_above q x s)

mem-erase :
    (q p : ℤ) (s : List ℤ) → IsSortedKey s → mem q (erase_key p s) ≡ (not (eqb_ℤ q p) && mem q s)
unfolding erase_key erase
mem-erase q p [] h = ground arith
mem-erase q p (x ∷ s) h = ground (arith, mem-erase q p s (sorted_of_above x s h), mem_above q x s h)

insert_key-IsNonneg : (p : ℤ) (s : List ℤ) → pos 0 ≤ℤ p → IsNonneg s → IsNonneg (insert_key p s)
unfolding insert_key
insert_key-IsNonneg p s h k = insert-IsAbove (λ x. x) (negsuc 0) p s (omega arith) k

erase_key-IsNonneg : (p : ℤ) (s : List ℤ) → IsNonneg s → IsNonneg (erase_key p s)
unfolding erase_key
erase_key-IsNonneg p s k = erase-IsAbove (λ x. x) (negsuc 0) p s k

contains_pu-ranges : (s : List ℤ) (q : ℤ) → IsNonneg s → contains_pu (ranges s) q ≡ mem q s
contains_pu-ranges s q h =
    contains_pu-to_set (ranges s) q ∙ ap (mem q) (to_set-ranges s (sorted_of_above (negsuc 0) s h))

-- Adding a PU, not negative, to ranges that hold no negative number succeeds; the new ranges hold
-- the PU and what the ranges held, and nothing else.
pub contains_pu-add_pu :
    (vec : CpusetVector) (pu : ℤ)
    → IsNonneg (to_set vec)
    → pos 0 ≤ℤ pu
    → (vec' : CpusetVector) × (add_pu vec pu ≡ some (vec', true))
      × (to_set vec' ≡ insert_key pu (to_set vec))
      × ((q : ℤ) → contains_pu vec' q ≡ (eqb_ℤ q pu || contains_pu vec q))
unfolding add_pu
contains_pu-add_pu vec pu h k =
    let s = insert_key pu (to_set vec) in
    let nonneg = insert_key-IsNonneg pu (to_set vec) k h in
    (
      ranges s,
      ground (arith, to_cpuset_vector-ranges s nonneg),
      to_set-ranges s (sorted_of_above (negsuc 0) s nonneg),
      λ q.
          contains_pu-ranges s q nonneg
          ∙ mem-insert q pu (to_set vec)
          ∙ ap (λ b. eqb_ℤ q pu || b) (sym (contains_pu-to_set vec q)),
    )

-- Removing a PU, not negative, from ranges that hold no negative number succeeds; the new ranges
-- hold what the ranges held but the PU.
contains_pu-remove_pu :
    (vec : CpusetVector) (pu : ℤ)
    → IsNonneg (to_set vec)
    → pos 0 ≤ℤ pu
    → (vec' : CpusetVector) × (remove_pu vec pu ≡ some (vec', true))
      × (to_set vec' ≡ erase_key pu (to_set vec))
      × ((q : ℤ) → contains_pu vec' q ≡ (not (eqb_ℤ q pu) && contains_pu vec q))
unfolding remove_pu
contains_pu-remove_pu vec pu h k =
    let s = erase_key pu (to_set vec) in
    let nonneg = erase_key-IsNonneg pu (to_set vec) h in
    (
      ranges s,
      ground (arith, to_cpuset_vector-ranges s nonneg),
      to_set-ranges s (sorted_of_above (negsuc 0) s nonneg),
      λ q.
          contains_pu-ranges s q nonneg
          ∙ mem-erase q pu (to_set vec) (to_set-IsSorted vec)
          ∙ ap (λ b. not (eqb_ℤ q pu) && b) (sym (contains_pu-to_set vec q)),
    )
