-- ===== src/Policies/Counters.antt =====
-- The vector `appsOnPu_` of the policies: how many apps each PU has. An index outside of the vector
-- is undefined behaviour, `none`. A counter is an int; no machine has so many processes that it
-- overflows.
use konro.Base.{ℕ, ◌+◌, Option, none, some, List, [], ◌∷◌, get_elem?, set, replicate, if◌then◌else◌}
use konro.Base.Int.{ℤ, pos, negsuc, ◌+ℤ◌, ◌-ℤ◌, ltb_ℤ, max_ℤ}

-- A new vector of n counters.
abbrev pub zeros : ℕ → List ℤ
zeros n = replicate n (pos 0)

-- vec[i]
abbrev pub at : List ℤ → ℤ → Option ℤ
at vec (pos i) = get_elem? vec i
at vec (negsuc i) = none

abbrev pub index_of : ℤ → ℕ
index_of (pos i) = i
index_of (negsuc i) = 0

-- ++vec[i]
unfoldable pub increment : ℤ → List ℤ → Option (List ℤ)
increment i vec = elim (at vec i) [
  | none ↦ none
  | some n ↦ some (set vec (index_of i) (n +ℤ pos 1))
]

-- --vec[i]
unfoldable pub decrement : ℤ → List ℤ → Option (List ℤ)
decrement i vec = elim (at vec i) [
  | none ↦ none
  | some n ↦ some (set vec (index_of i) (n -ℤ pos 1))
]

-- --vec[i]; vec[i] = max(vec[i], 0)
unfoldable pub release : ℤ → List ℤ → Option (List ℤ)
release i vec = elim (at vec i) [
  | none ↦ none
  | some n ↦ some (set vec (index_of i) (max_ℤ (n -ℤ pos 1) (pos 0)))
]

-- The loop of `removeApp` over the PUs of an app.
unfoldable pub release_all : List ℤ → List ℤ → Option (List ℤ)
unfolding release
release_all [] vec = some vec
release_all (pu ∷ pus) vec = elim (release pu vec) [
  | none ↦ none
  | some vec' ↦ release_all pus vec'
]

-- The loop of std::min_element, over the smallest element so far, its index and the next index.
unfoldable pub min_from : ℤ → ℕ → ℕ → List ℤ → ℕ
min_from best best_i i [] = best_i
min_from best best_i i (x ∷ xs) =
    min_from (if ltb_ℤ x best then x else best) (if ltb_ℤ x best then i else best_i) (i + 1) xs

-- The distance of std::min_element from the begin of the vector; on an empty one, of its end.
unfoldable pub min_index : List ℤ → ℕ
unfolding min_from
min_index [] = 0
min_index (x ∷ xs) = min_from x 0 1 xs
