-- ===== src/Policies/PuChoice.antt =====
-- How rm/policymanager/policies/puprogressivepolicy.cpp picks PUs: by load, by the number of apps and
-- by distance. Loads are by PU, as are the counters; an index outside of them is undefined behaviour
-- or a failed assertion, `none`. Distances come from the platform description (hwloc).
pub mod Picks
use konro.Base.{
  ℕ, ◌+◌, ◌==◌, Bool, true, false, not, ◌&&◌, ◌||◌, Option, none, some, List, [], ◌∷◌,
  if◌then◌else◌,
}
use konro.Base.Int.{ℤ, pos, negsuc, ◌+ℤ◌, eqb_ℤ, ltb_ℤ, to_short}
use konro.Base.OrderedSet.{insert_key}
use konro.Cpuset
use konro.Cpuset.{CpusetVector, to_set, to_vector}
use konro.Cpuset.Members.{mem}
use konro.Policies.Counters.{at, min_index}

-- std::numeric_limits<int>::max()
abbrev pub int_max : ℤ
int_max = pos 2147483647

-- The variables of the loops of `getLowerUsagePU`.
pub record Best : Type 0 where
  pub min_load : ℤ
  pub min_load_idx : ℤ
  pub min_used_load : ℤ
  pub min_used_load_idx : ℤ

abbrev pub no_best : Best
no_best = record {
  min_load = int_max;
  min_load_idx = negsuc 0;
  min_used_load = int_max;
  min_used_load_idx = negsuc 0;
}

-- One round, for the PU i with its load and its number of apps.
unfoldable pub seen : ℤ → ℤ → ℤ → Best → Best
seen i load count b =
    let less = ltb_ℤ load b.min_load in
    let used_less = ltb_ℤ (pos 0) count && ltb_ℤ load b.min_used_load in
    record {
      min_load = if less then load else b.min_load;
      min_load_idx = if less then i else b.min_load_idx;
      min_used_load = if used_less then load else b.min_used_load;
      min_used_load_idx = if used_less then i else b.min_used_load_idx;
    }

-- The loop over the PUs of a list. `none`: one of the vectors has no such index.
unfoldable pub scan_loads : List ℤ → List ℤ → List ℤ → Best → Option Best
unfolding seen
scan_loads loads counters [] b = some b
scan_loads loads counters (i ∷ is) b = elim (at loads i) [
  | none ↦ none
  | some load ↦ elim (at counters i) [
    | none ↦ none
    | some count ↦ scan_loads loads counters is (seen i load count b)
  ]
]

-- The returns behind the loop; the first argument is what the function returns at its end.
unfoldable pub chosen : ℤ → Best → ℤ
chosen otherwise b =
    if not (eqb_ℤ b.min_used_load_idx (negsuc 0))
    then b.min_used_load_idx
    else if not (eqb_ℤ b.min_load_idx (negsuc 0))
    then b.min_load_idx
    else otherwise

-- 0, 1, …, n - 1 behind i
abbrev pub indices : ℕ → List ℤ → List ℤ
indices i [] = []
indices i (x ∷ xs) = pos i ∷ indices (i + 1) xs

unfoldable pub get_lower_usage_pu : List ℤ → List ℤ → Option ℤ
unfolding scan_loads chosen
get_lower_usage_pu [] counters = some (pos (min_index counters))
get_lower_usage_pu (load ∷ loads) counters =
    elim (scan_loads (load ∷ loads) counters (indices 0 (load ∷ loads)) no_best) [
      | none ↦ none
      | some b ↦ some (chosen (pos 0) b)
    ]

-- The loop where no load is known, over its variables.
unfoldable pub scan_counters : List ℤ → List ℤ → ℤ → ℤ → Option ℤ
scan_counters counters [] fewest idx = some idx
scan_counters counters (i ∷ is) fewest idx = elim (at counters i) [
  | none ↦ none
  | some count ↦
      let less = ltb_ℤ count fewest in
      scan_counters counters is (if less then count else fewest) (if less then i else idx)
]

unfoldable pub get_lower_usage_pu_of : List ℤ → List ℤ → List ℤ → Option ℤ
unfolding scan_loads chosen scan_counters
get_lower_usage_pu_of puset [] counters = scan_counters counters puset int_max (negsuc 0)
get_lower_usage_pu_of puset (load ∷ loads) counters =
    elim (scan_loads (load ∷ loads) counters puset no_best) [
      | none ↦ none
      | some b ↦ some (chosen (negsuc 0) b)
    ]

-- std::set_difference
unfoldable pub difference : List ℤ → List ℤ → List ℤ
difference [] used = []
difference (pu ∷ pus) used =
    let rest = difference pus used in if mem pu used then rest else pu ∷ rest

-- The loop of `getKonroUsedPUs` from the index i on.
unfoldable pub konro_used_pus : ℕ → List ℤ → List ℤ
konro_used_pus i [] = []
konro_used_pus i (n ∷ ns) =
    let rest = konro_used_pus (i + 1) ns in
    if ltb_ℤ (pos 0) n then to_short (pos i) ∷ rest else rest

abbrev pub none_left : List ℤ → Bool
none_left [] = true
none_left (pu ∷ pus) = false

module _ (pu_distance : ℤ → ℤ → ℤ) where
  -- The inner loop of `getNearestPUs`, over the available PUs; the set is kept in order.
  unfoldable pub near_one : ℤ → List ℤ → ℤ × List ℤ → ℤ × List ℤ
  near_one used [] (best, res) = (best, res)
  near_one used (pu ∷ pus) (best, res) =
      let d = pu_distance used pu in
      let closer = ltb_ℤ d best in
      near_one used pus (
        if ltb_ℤ d (pos 0)
        then (best, res)
        else if closer
        then (d, pu ∷ [])
        else if eqb_ℤ d best
        then (best, insert_key pu res)
        else (best, res))

  unfoldable pub near_all : List ℤ → List ℤ → ℤ × List ℤ → ℤ × List ℤ
  unfolding near_one
  near_all [] avail b = b
  near_all (used ∷ useds) avail b = near_all useds avail (near_one used avail b)

  unfoldable pub get_nearest_pus : List ℤ → List ℤ → List ℤ
  unfolding near_all
  get_nearest_pus used avail = (near_all used avail (int_max, [])).1

  -- `getNewPU` on the used and the available PUs: one of the nearest.
  unfoldable pub nearest : List ℤ → List ℤ → List ℤ → List ℤ → Option ℤ
  unfolding get_nearest_pus get_lower_usage_pu_of
  nearest used avail loads counters =
      get_lower_usage_pu_of (get_nearest_pus used avail) loads counters

  -- -1 where no PU is left. The first argument is `getPUSet`.
  unfoldable pub get_new_pu : List ℤ → List ℤ → List ℤ → CpusetVector → Option ℤ
  unfolding nearest difference konro_used_pus
  get_new_pu all loads counters vec =
      let used = to_set vec in
      let konro = difference (konro_used_pus 0 counters) used in
      let avail = difference all used in
      if not (none_left konro)
      then nearest used konro loads counters
      else if not (none_left avail)
      then nearest used avail loads counters
      else some (negsuc 0)

  -- The two inner loops of `pickWorstPU`: the distances between the PUs but the one at an index.
  unfoldable pub row : ℕ → ℕ → ℤ → ℕ → List ℤ → ℤ
  row skip j pu k [] = pos 0
  row skip j pu k (x ∷ xs) =
      let rest = row skip j pu (k + 1) xs in
      if j == skip || k == skip then rest else pu_distance pu x +ℤ rest

  unfoldable pub total_distance : ℕ → ℕ → List ℤ → ℤ
  unfolding row
  total_distance skip j [] = pos 0
  total_distance skip j (x ∷ xs) = row skip j x (j + 1) xs +ℤ total_distance skip (j + 1) xs

  -- The outer loop: the PU whose removal leaves the least total, the first of those, or -1.
  unfoldable pub worst_from : List ℤ → ℕ → List ℤ → ℤ → ℤ → ℤ
  unfolding total_distance
  worst_from vec i [] least worst = worst
  worst_from vec i (pu ∷ pus) least worst =
      let total = total_distance i 0 vec in
      let less = ltb_ℤ total least in
      worst_from vec (i + 1) pus (if less then total else least) (if less then pu else worst)

  unfoldable pub pick_worst_pu : CpusetVector → ℤ
  unfolding worst_from
  pick_worst_pu vec =
      if eqb_ℤ (Cpuset.count_pus vec) (pos 1)
      then negsuc 0
      else worst_from (to_vector vec) 0 (to_vector vec) int_max (negsuc 0)
