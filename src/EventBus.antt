-- ===== src/EventBus.antt =====
-- rm/librmcommon/eventbus.h: the handlers subscribed to each type of event. An event type is named by
-- a number (std::type_index), and a handler is whatever the subscriber registers.
use konro.Base.{
  ℕ, ◌≡◌, ◌∙◌, refl, sym, Option, none, some, List, [], ◌∷◌, ◌++◌, append_assoc, append-nil, arith,
  ◌==◌, if◌then◌else◌, Bool-cases, inl, inr, ==_iff,
}

-- `subscribers`: std::map<type_index, HandlerList *>; `none` is the null pointer that `operator[]`
-- leaves at a key it has not seen.
abbrev pub Bus : Type 0 → Type 0
Bus H = List (ℕ × Option (List H))

module _ {H : Type 0} where
  -- subscribers[k]
  unfoldable pub handlers : ℕ → Bus H → Option (List H)
  handlers k [] = none
  handlers k ((j, hs) ∷ bus) = if j == k then hs else handlers k bus

  -- subscribers[k] = hs
  unfoldable pub assign : ℕ → Option (List H) → Bus H → Bus H
  assign k hs [] = (k, hs) ∷ []
  assign k hs ((j, old) ∷ bus) = if j == k then (j, hs) ∷ bus else (j, old) ∷ assign k hs bus

  -- A first subscription makes the list; the handler goes to its end.
  extended : Option (List H) → H → List H
  extended none h = h ∷ []
  extended (some hs) h = hs ++ h ∷ []

  unfoldable pub subscribe : ℕ → H → Bus H → Bus H
  unfolding handlers assign extended
  subscribe k h bus = assign k (some (extended (handlers k bus) h)) bus

  -- The handlers that are called, in order, and the bus: reading subscribers[k] may add a key.
  called : Option (List H) → List H
  called none = []
  called (some hs) = hs

  unfoldable pub publish : ℕ → Bus H → List H × Bus H
  unfolding handlers assign called
  publish k bus = (called (handlers k bus), assign k (handlers k bus) bus)

  handlers-assign :
      (k j : ℕ) (hs : Option (List H)) (bus : Bus H)
      → handlers j (assign k hs bus) ≡ (if k == j then hs else handlers j bus)
  unfolding handlers assign
  handlers-assign k j hs [] = refl
  handlers-assign k j hs ((i, old) ∷ bus) = ground (arith, handlers-assign k j hs bus)

-- What is done to a bus.
pub data Use (H : Type 0) : Type 0 where
  subscribes : ℕ → H → Use H
  publishes : ℕ → Use H

module _ {H : Type 0} where
  unfoldable pub after : List (Use H) → Bus H → Bus H
  after [] bus = bus
  after (subscribes k h ∷ uses) bus = after uses (subscribe k h bus)
  after (publishes k ∷ uses) bus = after uses (publish k bus).1

  -- The handlers that were subscribed to a type, in order.
  unfoldable pub subscribers_of : ℕ → List (Use H) → List H
  subscribers_of k [] = []
  subscribers_of k (subscribes j h ∷ uses) =
      if j == k then h ∷ subscribers_of k uses else subscribers_of k uses
  subscribers_of k (publishes j ∷ uses) = subscribers_of k uses

  called-subscribe :
      (k j : ℕ) (h : H) (bus : Bus H)
      → called (handlers k (subscribe j h bus))
        ≡ (if j == k then called (handlers k bus) ++ h ∷ [] else called (handlers k bus))
  unfolding subscribe
  called-subscribe k j h bus = elim (Bool-cases (j == k)) [
    | inl e ↦
        rw (handlers-assign j k (some (extended (handlers j bus) h)) bus, e)
          (rw ((==_iff j k).0 e) (called-extended (handlers k bus)))
    | inr e ↦ rw (handlers-assign j k (some (extended (handlers j bus) h)) bus, e) refl
  ]
    where
      called-extended : (hs : Option (List H)) → called (some (extended hs h)) ≡ called hs ++ h ∷ []
      called-extended none = unfold called extended in refl
      called-extended (some hs) = unfold called extended in refl

  called-publish :
      (k j : ℕ) (bus : Bus H) → called (handlers k (publish j bus).1) ≡ called (handlers k bus)
  unfolding publish
  called-publish k j bus = elim (Bool-cases (j == k)) [
    | inl e ↦ rw (handlers-assign j k (handlers j bus) bus, e) (rw ((==_iff j k).0 e) refl)
    | inr e ↦ rw (handlers-assign j k (handlers j bus) bus, e) refl
  ]

  called-after :
      (k : ℕ) (uses : List (Use H)) (bus : Bus H)
      → called (handlers k (after uses bus)) ≡ called (handlers k bus) ++ subscribers_of k uses
  unfolding after subscribers_of
  called-after k [] bus = sym (append-nil (called (handlers k bus)))
  called-after k (subscribes j h ∷ uses) bus =
      called-after k uses (subscribe j h bus) ∙ elim (Bool-cases (j == k)) [
        | inl e ↦ rw (called-subscribe k j h bus, e) (append_assoc _ (h ∷ []) _)
        | inr e ↦ rw (called-subscribe k j h bus, e) refl
      ]
  called-after k (publishes j ∷ uses) bus =
      called-after k uses (publish j bus).1 ∙ rw (called-publish k j bus) refl

  -- Publishing an event on a bus that was empty at first calls the handlers that were subscribed to
  -- its type, each once, in the order of their subscriptions, whatever was published in between.
  pub publish-after :
      (k : ℕ) (uses : List (Use H)) → (publish k (after uses [])).0 ≡ subscribers_of k uses
  unfolding publish handlers
  publish-after k uses = called-after k uses []
