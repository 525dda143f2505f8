-- ===== src/PlatformDescription/Distance.antt =====
-- The distance of processing units in the tree.
use konro.Base.{
  ℕ, ◌+◌, ◌≤◌, max, ◌≡◌, refl, sym, arith, ◌==◌, true, false, [], ◌∷◌, length, ==_iff, Bool-cases,
  inl, inr,
}
use konro.PlatformDescription.{Obj, Chain, climb, obj_distance}

-- An object has one parent: where two chains meet, they go on alike.
abbrev pub Meet : Chain → Chain → Type 0
Meet [] c2 = Unit {0}
Meet (o1 ∷ c1) [] = Unit {0}
Meet (o1 ∷ c1) (o2 ∷ c2) = (((o1.address == o2.address) ≡ true) → c1 ≡ c2) × Meet c1 c2

eqb_comm : (a b : ℕ) → (a == b) ≡ (b == a)
eqb_comm a b = ground arith

climb_comm : (a b : Chain) → climb a b ≡ climb b a
unfolding climb
climb_comm [] [] = refl
climb_comm [] (o2 ∷ b) = refl
climb_comm (o1 ∷ a) [] = refl
climb_comm (o1 ∷ a) (o2 ∷ b) = rw (eqb_comm o1.address o2.address, climb_comm a b) refl

-- The distance of two chains by the addresses of their first objects.
climb_head :
    (o1 o2 o3 : Obj) (a b c : Chain)
    → o1.address ≡ o2.address
    → a ≡ b
    → climb (o1 ∷ a) (o3 ∷ c) ≡ climb (o2 ∷ b) (o3 ∷ c)
unfolding climb
climb_head o1 o2 o3 a b c h k = rw (h, k) refl

climb_same : (o1 o2 : Obj) (a b : Chain) → o1.address ≡ o2.address → climb (o1 ∷ a) (o2 ∷ b) ≡ 0
unfolding climb
climb_same o1 o2 a b h = rw (h, (==_iff o2.address o2.address).1 refl) refl

climb_apart :
    (o1 o2 : Obj) (a b : Chain)
    → (o1.address == o2.address) ≡ false
    → climb (o1 ∷ a) (o2 ∷ b) ≡ climb a b + 1
unfolding climb
climb_apart o1 o2 a b h = rw h refl

climb_bound : (o1 o2 : Obj) (a b : Chain) → climb (o1 ∷ a) (o2 ∷ b) ≤ climb a b + 1
unfolding climb
climb_bound o1 o2 a b = ground arith

climb_triangle :
    (a b c : Chain)
    → length a ≡ length b
    → length b ≡ length c
    → Meet a b
    → Meet b c
    → climb a c ≤ max (climb a b) (climb b c)
climb_triangle [] b c l k m n = unfold climb in ground arith
climb_triangle (o1 ∷ a) [] c l k m n = absurd (omega arith)
climb_triangle (o1 ∷ a) (o2 ∷ b) [] l k m n = absurd (omega arith)
climb_triangle (o1 ∷ a) (o2 ∷ b) (o3 ∷ c) l k m n = elim (Bool-cases (o1.address == o2.address)) [
  | inl e ↦
      rw (climb_head o1 o2 o3 a b c ((==_iff o1.address o2.address).0 e) (m.0 e)) (ground arith)
  | inr e ↦ elim (Bool-cases (o2.address == o3.address)) [
    | inl f ↦
        rw
          (
            climb_comm (o1 ∷ a) (o3 ∷ c),
            climb_head o3 o2 o1 c b a (sym ((==_iff o2.address o3.address).0 f)) (sym (n.0 f)),
            climb_comm (o2 ∷ b) (o1 ∷ a),
          )
          (ground arith)
    | inr f ↦
        let ih = climb_triangle a b c (omega arith) (omega arith) m.1 n.1 in
        rw (climb_apart o1 o2 a b e, climb_apart o2 o3 b c f)
          (ground (arith, ih, climb_bound o1 o3 a c))
  ]
]

-- The number of steps up to a common object is an ultrametric on the units of a tree, whose chains
-- are all of the same length: it is symmetric, and the way from one unit to another is not longer
-- than the longer of the ways over a third.
obj_distance-ultrametric :
    (a b c : Chain)
    → length a ≡ length b
    → length b ≡ length c
    → Meet a b
    → Meet b c
    → (obj_distance a b ≡ obj_distance b a)
      × (obj_distance a c ≤ max (obj_distance a b) (obj_distance b c))
unfolding obj_distance
obj_distance-ultrametric [] [] [] l k m n = (refl, ground arith)
obj_distance-ultrametric [] [] (o3 ∷ c) l k m n = absurd (omega arith)
obj_distance-ultrametric [] (o2 ∷ b) c l k m n = absurd (omega arith)
obj_distance-ultrametric (o1 ∷ a) [] c l k m n = absurd (omega arith)
obj_distance-ultrametric (o1 ∷ a) (o2 ∷ b) [] l k m n = absurd (omega arith)
obj_distance-ultrametric (o1 ∷ a) (o2 ∷ b) (o3 ∷ c) l k m n =
    (climb_comm (o1 ∷ a) (o2 ∷ b), climb_triangle (o1 ∷ a) (o2 ∷ b) (o3 ∷ c) l k m n)
