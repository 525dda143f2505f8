-- ===== src/Cpuset.antt =====
-- rm/librmcommon/cpusetvector.h and cpusetvector.cpp: sets of processing units (PUs), as ranges and
-- as std::set<short>. A short is an integer; what does not fit is wrapped where the code converts.
pub mod Vectors
pub mod Ranges
pub mod Members
pub mod Canonical
pub mod NormalForm
use konro.Base.{
  ℕ, zero, suc, ◌+◌, ◌≤◌, ◌≡◌, refl, Bool, true, false, ◌&&◌, Option, none, some, List, [], ◌∷◌,
  ◌++◌, if◌then◌else◌,
}
use konro.Base.Int.{ℤ, pos, negsuc, pos_part, ◌+ℤ◌, ◌-ℤ◌, eqb_ℤ, leb_ℤ, to_short}
use konro.Base.OrderedSet.{insert_key, erase_key}

abbrev pub CpusetVector : Type 0
CpusetVector = List (ℤ × ℤ)

-- The rounds of `for (int i = first; i <= second; ++i)`.
unfoldable pub rounds : ℤ → ℤ → ℕ
rounds first second = pos_part (second +ℤ pos 1 -ℤ first)

-- std::accumulate, whose lambda takes its first argument as a short.
count_from : ℤ → CpusetVector → ℤ
count_from n [] = n
count_from n ((first, second) ∷ vec) = count_from (to_short n +ℤ (second -ℤ first +ℤ pos 1)) vec

unfoldable pub count_pus : CpusetVector → ℤ
unfolding count_from
count_pus vec = count_from (pos 0) vec

unfoldable pub contains_pu : CpusetVector → ℤ → Bool
contains_pu [] pu = false
contains_pu ((first, second) ∷ vec) pu =
    if leb_ℤ first pu && leb_ℤ pu second then true else contains_pu vec pu

-- The inner loop of `toSet`: n rounds from i on.
insert_range : ℤ → ℕ → List ℤ → List ℤ
insert_range i zero res = res
insert_range i (suc n) res = insert_range (i +ℤ pos 1) n (insert_key i res)

to_set_from : List ℤ → CpusetVector → List ℤ
to_set_from res [] = res
to_set_from res ((first, second) ∷ vec) =
    to_set_from (insert_range first (rounds first second) res) vec

unfoldable pub to_set : CpusetVector → List ℤ
unfolding to_set_from insert_range rounds insert_key
to_set vec = to_set_from [] vec

-- The inner loop of `toVector`.
push_range : ℤ → ℕ → List ℤ → List ℤ
push_range i zero res = res
push_range i (suc n) res = push_range (i +ℤ pos 1) n (res ++ i ∷ [])

to_vector_from : List ℤ → CpusetVector → List ℤ
to_vector_from res [] = res
to_vector_from res ((first, second) ∷ vec) =
    to_vector_from (push_range first (rounds first second) res) vec

unfoldable pub to_vector : CpusetVector → List ℤ
unfolding to_vector_from push_range rounds
to_vector vec = to_vector_from [] vec

-- `res[res.size()-1].second = pu`. On an empty vector the write is out of bounds: `none`.
set_last : CpusetVector → ℤ → Option CpusetVector
set_last [] pu = none
set_last ((first, second) ∷ []) pu = some ((first, pu) ∷ [])
set_last (r ∷ s ∷ res) pu = elim (set_last (s ∷ res) pu) [
  | none ↦ none
  | some res' ↦ some (r ∷ res')
]

-- The loop of `toCpusetVector`, over its variables `lastPu` and `res`.
collect : ℤ → CpusetVector → List ℤ → Option CpusetVector
collect last_pu res [] = some res
collect last_pu res (pu ∷ pus) =
    let extended : Option CpusetVector = elim (set_last res pu) [
      | none ↦ none
      | some res' ↦ collect pu res' pus
    ] in
    let started = collect pu (res ++ (pu, pu) ∷ []) pus in
    if eqb_ℤ pu (last_pu +ℤ pos 1) then extended else started

unfoldable pub to_cpuset_vector : List ℤ → Option CpusetVector
unfolding collect set_last
to_cpuset_vector pu_set = collect (negsuc 9) [] pu_set

-- The new vector and the result. A PU of -1 stands for none.
unfoldable pub remove_pu : CpusetVector → ℤ → Option (CpusetVector × Bool)
unfolding to_set to_cpuset_vector erase_key
remove_pu vec pu =
    if eqb_ℤ pu (negsuc 0)
    then some (vec, false)
    else elim (to_cpuset_vector (erase_key pu (to_set vec))) [
      | none ↦ none
      | some vec' ↦ some (vec', true)
    ]

unfoldable pub add_pu : CpusetVector → ℤ → Option (CpusetVector × Bool)
unfolding to_set to_cpuset_vector insert_key
add_pu vec pu =
    if eqb_ℤ pu (negsuc 0)
    then some (vec, false)
    else elim (to_cpuset_vector (insert_key pu (to_set vec))) [
      | none ↦ none
      | some vec' ↦ some (vec', true)
    ]

-- "1-3,5" and back
abbrev pub one_to_three_five : CpusetVector
one_to_three_five = (pos 1, pos 3) ∷ (pos 5, pos 5) ∷ []

adds_between : add_pu one_to_three_five (pos 4) ≡ some ((pos 1, pos 5) ∷ [], true)
unfolding add_pu ◌+ℤ◌ ◌-ℤ◌
adds_between = refl
