-- ===== src/Policies/PuChoice/Picks.antt =====
-- Which PUs `getNewPU` can pick.
use konro.Base.{
  ℕ, ◌+◌, ◌≡◌, ◌∙◌, sym, ap, ◌⊎◌, inl, inr, refl, Bool, true, false, not, Option, none, some, List,
  [], ◌∷◌, if◌then◌else◌, All, Bool-cases, Option-cases, arith,
}
use konro.Base.Int.{ℤ, pos, negsuc, eqb_ℤ, ltb_ℤ}
use konro.Base.OrderedSet.{insert, insert_key}
use konro.Cpuset
use konro.Cpuset.{CpusetVector, contains_pu, to_set, to_vector}
use konro.Cpuset.Members.{mem, contains_pu-expand, contains_pu-to_set}
use konro.Cpuset.Ranges.{to_vector-expand}
use konro.Policies.Counters.{at}
use konro.Policies.PuChoice.{
  int_max, Best, no_best, seen, scan_loads, chosen, scan_counters, get_lower_usage_pu_of,
  difference, konro_used_pus, none_left, near_one, near_all, get_nearest_pus, nearest, get_new_pu,
  worst_from, pick_worst_pu,
}

-- Of the result, where there is one.
unfoldable Ensures : {A : Type 0} → (A → Type 0) → Option A → Type 0
Ensures R none = Unit {0}
Ensures R (some a) = R a

if_holds : {A : Type 0} (R : A → Type 0) (t : Bool) {x y : A} → R x → R y → R (if t then x else y)
if_holds R true h k = h
if_holds R false h k = k

module _ (Q : ℤ → Type 0) where
  abbrev Found : Best → Type 0
  Found b = Q b.min_load_idx × Q b.min_used_load_idx

  seen-Found : (i load count : ℤ) (b : Best) → Q i → Found b → Found (seen i load count b)
  unfolding seen
  seen-Found i load count b q f = (if_holds Q _ q f.0, if_holds Q _ q f.1)

  scan_loads-Found :
      (loads counters is : List ℤ) (b : Best)
      → All Q is
      → Found b
      → Ensures Found (scan_loads loads counters is b)
  unfolding scan_loads Ensures
  scan_loads-Found loads counters [] b h f = f
  scan_loads-Found loads counters (i ∷ is) b h f = elim (Option-cases (at loads i)) [
    | inl e ↦ rw (e, scan_loads, Ensures) tt
    | inr (load, e) ↦
        rw (e, scan_loads, Ensures)
          (elim (Option-cases (at counters i)) [
            | inl k ↦ rw (k, scan_loads, Ensures) tt
            | inr (count, k) ↦
                rw (k, scan_loads, Ensures)
                  (scan_loads-Found loads counters is (seen i load count b) h.1
                    (seen-Found i load count b h.0 f))
          ])
  ]

  scan_counters-Ensures :
      (counters is : List ℤ) (fewest idx : ℤ)
      → All Q is
      → Q idx
      → Ensures Q (scan_counters counters is fewest idx)
  unfolding scan_counters Ensures
  scan_counters-Ensures counters [] fewest idx h q = q
  scan_counters-Ensures counters (i ∷ is) fewest idx h q = elim (Option-cases (at counters i)) [
    | inl e ↦ rw (e, scan_counters, Ensures) tt
    | inr (count, e) ↦
        rw (e, scan_counters, Ensures)
          (scan_counters-Ensures counters is _ _ h.1 (if_holds Q _ h.0 q))
  ]

  chosen-holds : (b : Best) → Q (negsuc 0) → Found b → Q (chosen (negsuc 0) b)
  unfolding chosen
  chosen-holds b q f = if_holds Q _ f.1 (if_holds Q _ f.0 q)

  get_lower_usage_pu_of-Ensures :
      (puset loads counters : List ℤ)
      → All Q puset
      → Q (negsuc 0)
      → Ensures Q (get_lower_usage_pu_of puset loads counters)
  unfolding get_lower_usage_pu_of Ensures
  get_lower_usage_pu_of-Ensures puset [] counters h q =
      scan_counters-Ensures counters puset int_max (negsuc 0) h q
  get_lower_usage_pu_of-Ensures puset (load ∷ loads) counters h q =
      settle (scan_loads (load ∷ loads) counters puset no_best)
        (scan_loads-Found (load ∷ loads) counters puset no_best h (q, q))
    where
      settle :
          (r : Option Best)
          → Ensures Found r
          → Ensures Q (elim r [ none ↦ none | some b ↦ some (chosen (negsuc 0) b) ])
      settle none f = tt
      settle (some b) f = chosen-holds b q f

  insert_key-All : (x : ℤ) (s : List ℤ) → Q x → All Q s → All Q (insert_key x s)
  unfolding insert_key insert
  insert_key-All x [] q h = (q, tt)
  insert_key-All x (y ∷ s) q h =
      if_holds (All Q) (ltb_ℤ x y) {x = x ∷ y ∷ s}
        {y = if ltb_ℤ y x then y ∷ insert (λ z. z) x s else y ∷ s} (q, h)
        (if_holds (All Q) (ltb_ℤ y x) {x = y ∷ insert (λ z. z) x s} {y = y ∷ s}
          (h.0, insert_key-All x s q h.1) h)

  module _ (distance : ℤ → ℤ → ℤ) where
    near_one-All :
        (used : ℤ) (avail : List ℤ) (b : ℤ × List ℤ)
        → All Q avail
        → All Q b.1
        → All Q (near_one distance used avail b).1
    unfolding near_one
    near_one-All used [] (best, res) h k = k
    near_one-All used (pu ∷ pus) (best, res) h k = near_one-All used pus _ h.1 (
        if_holds (λ (b : ℤ × List ℤ). All Q b.1) (ltb_ℤ (distance used pu) (pos 0)) k
          (if_holds (λ (b : ℤ × List ℤ). All Q b.1) (ltb_ℤ (distance used pu) best) (h.0, tt)
            (if_holds (λ (b : ℤ × List ℤ). All Q b.1) (eqb_ℤ (distance used pu) best)
              (insert_key-All pu res h.0 k) k)))

    near_all-All :
        (used avail : List ℤ) (b : ℤ × List ℤ)
        → All Q avail
        → All Q b.1
        → All Q (near_all distance used avail b).1
    unfolding near_all
    near_all-All [] avail b h k = k
    near_all-All (u ∷ used) avail b h k =
        near_all-All used avail (near_one distance u avail b) h (near_one-All u avail b h k)

    nearest-Ensures :
        (used avail loads counters : List ℤ)
        → All Q avail
        → Q (negsuc 0)
        → Ensures Q (nearest distance used avail loads counters)
    unfolding nearest get_nearest_pus
    nearest-Ensures used avail loads counters h q =
        get_lower_usage_pu_of-Ensures (near_all distance used avail (int_max, [])).1 loads counters
          (near_all-All used avail (int_max, []) h tt) q

-- No PU is picked, or one that is not used.
abbrev IsFree : List ℤ → ℤ → Type 0
IsFree used pu = (pu ≡ negsuc 0) ⊎ (mem pu used ≡ false)

difference-IsFree : (pus used : List ℤ) → All (IsFree used) (difference pus used)
unfolding difference
difference-IsFree [] used = tt
difference-IsFree (pu ∷ pus) used = elim (Bool-cases (mem pu used)) [
  | inl e ↦ rw e (difference-IsFree pus used)
  | inr e ↦ rw e (inr e, difference-IsFree pus used)
]

get_new_pu-IsFree :
    (distance : ℤ → ℤ → ℤ) (all loads counters : List ℤ) (vec : CpusetVector)
    → Ensures (IsFree (to_set vec)) (get_new_pu distance all loads counters vec)
unfolding get_new_pu Ensures
get_new_pu-IsFree distance all loads counters vec =
    let used = to_set vec in
    if_holds (Ensures (IsFree used)) (not (none_left (difference (konro_used_pus 0 counters) used)))
      (nearest-Ensures (IsFree used) distance used (difference (konro_used_pus 0 counters) used)
        loads counters (difference-IsFree (konro_used_pus 0 counters) used) (inl refl))
      (if_holds (Ensures (IsFree used)) (not (none_left (difference all used)))
        (nearest-Ensures (IsFree used) distance used (difference all used) loads counters
          (difference-IsFree all used) (inl refl))
        (inl refl))

-- Whatever the distances, the loads and the counters are, the PU that is picked for an app is not in
-- its ranges, unless it is -1, which stands for none.
get_new_pu-contains_pu :
    (distance : ℤ → ℤ → ℤ) (all loads counters : List ℤ) (vec : CpusetVector) (pu : ℤ)
    → get_new_pu distance all loads counters vec ≡ some pu
    → (pu ≡ negsuc 0) ⊎ (contains_pu vec pu ≡ false)
unfolding Ensures
get_new_pu-contains_pu distance all loads counters vec pu e =
    elim (rw e at (get_new_pu-IsFree distance all loads counters vec)) [
      | inl h ↦ inl h
      | inr h ↦ inr (contains_pu-to_set vec pu ∙ h)
    ]

worst_from-holds :
    (Q : ℤ → Type 0) (distance : ℤ → ℤ → ℤ) (vec : List ℤ) (i : ℕ) (pus : List ℤ) (least worst : ℤ)
    → All Q pus
    → Q worst
    → Q (worst_from distance vec i pus least worst)
unfolding worst_from
worst_from-holds Q distance vec i [] least worst h q = q
worst_from-holds Q distance vec i (pu ∷ pus) least worst h q =
    worst_from-holds Q distance vec (i + 1) pus _ _ h.1 (if_holds Q _ h.0 q)

All-of_mem : (R : ℤ → Type 0) (pus : List ℤ) → ((pu : ℤ) → mem pu pus ≡ true → R pu) → All R pus
All-of_mem R [] h = tt
All-of_mem R (x ∷ xs) h = (h x (ground arith), All-of_mem R xs (λ pu e. h pu (ground arith)))

-- No PU is picked, or one that is used.
abbrev IsUsed : CpusetVector → ℤ → Type 0
IsUsed vec pu = (pu ≡ negsuc 0) ⊎ (contains_pu vec pu ≡ true)

to_vector-IsUsed : (vec : CpusetVector) → All (IsUsed vec) (to_vector vec)
to_vector-IsUsed vec =
    All-of_mem (IsUsed vec) (to_vector vec)
      (λ pu e. inr (contains_pu-expand vec pu ∙ ap (mem pu) (sym (to_vector-expand vec)) ∙ e))

-- Whatever the distances are, the PU that is picked to be taken from an app is in its ranges, unless
-- it is -1, which stands for none.
pick_worst_pu-contains_pu :
    (distance : ℤ → ℤ → ℤ) (vec : CpusetVector)
    → (pick_worst_pu distance vec ≡ negsuc 0)
      ⊎ (contains_pu vec (pick_worst_pu distance vec) ≡ true)
unfolding pick_worst_pu
pick_worst_pu-contains_pu distance vec =
    if_holds (IsUsed vec) (eqb_ℤ (Cpuset.count_pus vec) (pos 1)) (inl refl) (
      worst_from-holds (IsUsed vec) distance (to_vector vec) 0 (to_vector vec) int_max (negsuc 0)
        (to_vector-IsUsed vec) (inl refl))
