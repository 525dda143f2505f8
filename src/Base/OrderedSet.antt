-- ===== src/Base/OrderedSet.antt =====
-- std::set and std::map as lists in increasing order of a key. A set of numbers is its own key.
use konro.Base.Tests.{if◌then◌else◌}
use konro.Base.Int.{ℤ, ◌<ℤ◌, ltb_ℤ, eqb_ℤ, eqb_ℤ_iff}
use mathlib.Core.Path.{◌≡◌, refl}
use mathlib.Core.Bool.{false}
use mathlib.Core.List.{List, [], ◌∷◌, map}
use mathlib.Core.Option.{Option, none, some}
use native.Mathlib.Omega.{arith}

module _ {A : Type 0} (key : A → ℤ) where
  -- An element with an equal key keeps its place, and the new one is dropped.
  unfoldable pub insert : A → List A → List A
  insert a [] = a ∷ []
  insert a (x ∷ xs) =
      if ltb_ℤ (key a) (key x)
      then a ∷ x ∷ xs
      else if ltb_ℤ (key x) (key a)
      then x ∷ insert a xs
      else x ∷ xs

  unfoldable pub find : ℤ → List A → Option A
  find k [] = none
  find k (x ∷ xs) = if eqb_ℤ (key x) k then some x else find k xs

  unfoldable pub erase : ℤ → List A → List A
  erase k [] = []
  erase k (x ∷ xs) = if eqb_ℤ (key x) k then xs else x ∷ erase k xs

  -- The keys grow along the list, and lie above the bound.
  abbrev pub IsAbove : ℤ → List A → Type 0
  IsAbove b [] = Unit {0}
  IsAbove b (x ∷ xs) = (b <ℤ key x) × IsAbove (key x) xs

  abbrev pub IsSorted : List A → Type 0
  IsSorted [] = Unit {0}
  IsSorted (x ∷ xs) = IsAbove (key x) xs

  pub IsAbove-mono : (b c : ℤ) (xs : List A) → b <ℤ c → IsAbove c xs → IsAbove b xs
  IsAbove-mono b c [] h s = tt
  IsAbove-mono b c (x ∷ xs) h s = (omega arith, s.1)

  pub insert-IsAbove :
      (b : ℤ) (a : A) (xs : List A) → b <ℤ key a → IsAbove b xs → IsAbove b (insert a xs)
  unfolding insert
  insert-IsAbove b a [] h s = (h, tt)
  insert-IsAbove b a (x ∷ xs) h s = ground (arith, insert-IsAbove (key x) a xs)

  pub insert-IsSorted : (a : A) (xs : List A) → IsSorted xs → IsSorted (insert a xs)
  unfolding insert
  insert-IsSorted a [] s = tt
  insert-IsSorted a (x ∷ xs) s = ground (arith, insert-IsAbove (key x) a xs)

  pub erase-IsAbove : (b k : ℤ) (xs : List A) → IsAbove b xs → IsAbove b (erase k xs)
  unfolding erase
  erase-IsAbove b k [] s = tt
  erase-IsAbove b k (x ∷ xs) s =
      ground (arith, erase-IsAbove (key x) k xs, IsAbove-mono b (key x) xs)

  pub IsSorted-of_IsAbove : (b : ℤ) (xs : List A) → IsAbove b xs → IsSorted xs
  IsSorted-of_IsAbove b [] s = tt
  IsSorted-of_IsAbove b (x ∷ xs) s = s.1

  pub erase-IsSorted : (k : ℤ) (xs : List A) → IsSorted xs → IsSorted (erase k xs)
  unfolding erase
  erase-IsSorted k [] s = tt
  erase-IsSorted k (x ∷ xs) s =
      ground (arith, erase-IsAbove (key x) k xs, IsSorted-of_IsAbove (key x) xs)

  pub find_above : (k b : ℤ) (xs : List A) → IsAbove b xs → k <ℤ b → find k xs ≡ none
  unfolding find
  find_above k b [] s h = refl
  find_above k b (x ∷ xs) s h = ground (arith, find_above k (key x) xs)

  pub find_at : (b : ℤ) (xs : List A) → IsAbove b xs → find b xs ≡ none
  unfolding find
  find_at b [] s = refl
  find_at b (x ∷ xs) s = ground (arith, find_above b (key x) xs)

  -- The element that a failed look-up falls back to.
  abbrev pub or_else : Option A → A → Option A
  or_else none a = some a
  or_else (some x) a = some x

  pub find-insert_self :
      (a : A) (xs : List A) → IsSorted xs → find (key a) (insert a xs) ≡ or_else (find (key a) xs) a
  unfolding find insert
  find-insert_self a [] s = ground arith
  find-insert_self a (x ∷ xs) s =
      ground (
        arith,
        find-insert_self a xs,
        find_above (key a) (key x) xs,
        IsSorted-of_IsAbove (key x) xs,
      )

  pub find-insert_ne :
      (k : ℤ) (a : A) (xs : List A) → eqb_ℤ (key a) k ≡ false → find k (insert a xs) ≡ find k xs
  unfolding find insert
  find-insert_ne k a [] h = ground arith
  find-insert_ne k a (x ∷ xs) h = ground (arith, find-insert_ne k a xs)

  pub find-erase_self : (k : ℤ) (xs : List A) → IsSorted xs → find k (erase k xs) ≡ none
  unfolding find erase
  find-erase_self k [] s = refl
  find-erase_self k (x ∷ xs) s = ground (
    arith,
    find-erase_self k xs,
    find_at (key x) xs s,
    IsSorted-of_IsAbove (key x) xs,
    eqb_ℤ_iff (key x) k,
  )

  pub find-erase_ne : (k j : ℤ) (xs : List A) → eqb_ℤ k j ≡ false → find j (erase k xs) ≡ find j xs
  unfolding find erase
  find-erase_ne k j [] h = refl
  find-erase_ne k j (x ∷ xs) h = ground (arith, find-erase_ne k j xs)

  -- What is found has the key that was looked for.
  pub key-find : (k : ℤ) (x : A) (xs : List A) → find k xs ≡ some x → key x ≡ k
  unfolding find
  key-find k x [] h = cc
  key-find k x (y ∷ ys) h = ground (arith, key-find k x ys, eqb_ℤ_iff (key y) k)

  -- Nothing is inserted beside an element with the same key.
  pub insert_present :
      (a x : A) (xs : List A) → IsSorted xs → find (key a) xs ≡ some x → insert a xs ≡ xs
  unfolding find insert
  insert_present a x [] s h = cc
  insert_present a x (y ∷ xs) s h =
      ground (
        arith,
        insert_present a x xs,
        find_above (key a) (key y) xs,
        IsSorted-of_IsAbove (key y) xs,
      )

-- The sets whose elements are their own keys.
unfoldable pub insert_key : ℤ → List ℤ → List ℤ
unfolding insert
insert_key = insert (λ x. x)

unfoldable pub erase_key : ℤ → List ℤ → List ℤ
unfolding erase
erase_key = erase (λ x. x)

unfoldable pub find_key : ℤ → List ℤ → Option ℤ
unfolding find
find_key = find (λ x. x)

abbrev pub IsSortedKey : List ℤ → Type 0
IsSortedKey = IsSorted (λ x. x)

module _ {A : Type 0} (key : A → ℤ) where
  -- The keys of a set are a set of numbers, and change as the set does.
  pub map-insert :
      (a : A) (xs : List A) → map key (insert key a xs) ≡ insert_key (key a) (map key xs)
  unfolding insert insert_key
  map-insert a [] = refl
  map-insert a (x ∷ xs) = ground (arith, map-insert a xs)

  pub map-erase : (k : ℤ) (xs : List A) → map key (erase key k xs) ≡ erase_key k (map key xs)
  unfolding erase erase_key
  map-erase k [] = refl
  map-erase k (x ∷ xs) = ground (arith, map-erase k xs)
