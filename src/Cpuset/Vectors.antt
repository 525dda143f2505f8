-- ===== src/Cpuset/Vectors.antt =====
-- The overload of toCpusetVector in rm/librmcommon/cpusetvector.cpp for a vector of PUs, which it sorts:
-- std::sort leaves the elements in their order, equal ones included.
use konro.Base.{◌≡◌, ◌≢◌, ◌∙◌, refl, ap, Option, some, List, [], ◌∷◌, All, if◌then◌else◌, arith}
use konro.Base.Int.{ℤ, pos, negsuc, leb_ℤ}
use konro.Base.OrderedSet.{insert_key}
use konro.Cpuset.{CpusetVector, collect, to_cpuset_vector}

unfoldable sort_insert : ℤ → List ℤ → List ℤ
sort_insert x [] = x ∷ []
sort_insert x (y ∷ ys) = if leb_ℤ x y then x ∷ y ∷ ys else y ∷ sort_insert x ys

unfoldable sort : List ℤ → List ℤ
unfolding sort_insert
sort [] = []
sort (x ∷ xs) = sort_insert x (sort xs)

unfoldable vector_to_cpuset_vector : List ℤ → Option CpusetVector
unfolding sort collect
vector_to_cpuset_vector pu_vec = collect (negsuc 9) [] (sort pu_vec)

-- No element is there twice.
abbrev IsDistinct : List ℤ → Type 0
IsDistinct [] = Unit {0}
IsDistinct (x ∷ xs) = All (λ y. x ≢ y) xs × IsDistinct xs

-- The set of the elements.
abbrev set_of : List ℤ → List ℤ
set_of [] = []
set_of (x ∷ xs) = insert_key x (set_of xs)

sort_insert-insert_key :
    (x : ℤ) (ys : List ℤ) → All (λ y. x ≢ y) ys → sort_insert x ys ≡ insert_key x ys
unfolding sort_insert insert_key konro.Base.OrderedSet.insert
sort_insert-insert_key x [] h = refl
sort_insert-insert_key x (y ∷ ys) h = ground (arith, sort_insert-insert_key x ys)

sort_insert-All : (P : ℤ → Type 0) (x : ℤ) (ys : List ℤ) → P x → All P ys → All P (sort_insert x ys)
unfolding sort_insert
sort_insert-All P x [] p h = (p, tt)
sort_insert-All P x (y ∷ ys) p h = ground (arith, sort_insert-All P x ys)

sort-All : (P : ℤ → Type 0) (xs : List ℤ) → All P xs → All P (sort xs)
unfolding sort
sort-All P [] h = tt
sort-All P (x ∷ xs) h = sort_insert-All P x (sort xs) h.0 (sort-All P xs h.1)

sort-set_of : (xs : List ℤ) → IsDistinct xs → sort xs ≡ set_of xs
unfolding sort
sort-set_of [] h = refl
sort-set_of (x ∷ xs) h =
    sort_insert-insert_key x (sort xs) (sort-All (λ y. x ≢ y) xs h.0)
    ∙ ap (insert_key x) (sort-set_of xs h.1)

-- The two overloads agree: a vector in which no PU is there twice is turned into the ranges that its set
-- is turned into.
vector_to_cpuset_vector_lem :
    (pu_vec : List ℤ)
    → IsDistinct pu_vec
    → vector_to_cpuset_vector pu_vec ≡ to_cpuset_vector (set_of pu_vec)
unfolding vector_to_cpuset_vector to_cpuset_vector
vector_to_cpuset_vector_lem pu_vec h = ap (collect (negsuc 9) []) (sort-set_of pu_vec h)

-- A PU that is there twice is in two ranges.
twice : vector_to_cpuset_vector (pos 3 ∷ pos 3 ∷ []) ≡ some ((pos 3, pos 3) ∷ (pos 3, pos 3) ∷ [])
unfolding vector_to_cpuset_vector konro.Base.Int.◌+ℤ◌
twice = refl
