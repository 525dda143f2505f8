-- ===== src/PolicyManager/Preserved.antt =====
-- What a policy preserves of each mapping holds of all mappings of the manager's set.
use Prim.Native.String.{String}
use konro.Base.{
  ◌≡◌, inl, inr, Option, none, some, List, [], ◌∷◌, is_some, All, Bool-cases, Option-cases,
}
use konro.Base.Int.{ℤ, eqb_ℤ, ltb_ℤ}
use konro.Base.OrderedSet.{insert, find, erase}
use konro.App.{App}
use konro.AppMapping.{AppMapping, make_app_mapping}
use konro.Effect.{ok, exception, undefined}
use konro.Float.{Float}
use konro.PolicyManager.{
  SecurityFactors, mapping_key, Done, IBasePolicy, Event, add_event, remove_event, timer_event,
  monitor_event, feedback_event, security_event, clear_event, other_event, share, PolicyManager,
  returned, unshared, process_add_event, process_remove_event, process_timer_event,
  process_monitor_event, process_feedback_event, process_security_event, process_clear_event,
  process_event, erased,
}

-- The property holds of the mapping that an operation returns with. One that does not return ends the
-- program.
abbrev pub Kept : {fl : Float} {S : Type 0} → (AppMapping fl → Type 0) → Done fl S → Type 0
Kept P (ok u, m, s) = P m
Kept P (exception, m, s) = Unit {0}
Kept P (undefined, m, s) = Unit {0}

pub Kept-on_all :
    {fl : Float} {S : Type 0} (P : AppMapping fl → Type 0) (r : Done fl S) → P r.1 → Kept P r
Kept-on_all P (ok u, m, s) h = h
Kept-on_all P (exception, m, s) h = tt
Kept-on_all P (undefined, m, s) h = tt

-- The property holds of a new mapping, a new SAI does not end it, and neither does any method of the
-- policy that returns.
pub record Preserves (fl : Float) (policy : IBasePolicy fl) (P : AppMapping fl → Type 0)
    : Type 0 where
  pub fresh : (app : App) → P (make_app_mapping fl app)
  pub alerted : (sai : fl.F) (m : AppMapping fl) → P m → P (record m { sai = sai })
  pub added :
      (ms : List (AppMapping fl)) (m : AppMapping fl) (s : policy.S)
      → P m
      → Kept P (policy.add_app ms m s)
  pub removed :
      (ms : List (AppMapping fl)) (m : AppMapping fl) (s : policy.S)
      → P m
      → Kept P (policy.remove_app ms m s)
  pub fed_back : (m : AppMapping fl) (n : ℤ) (s : policy.S) → P m → Kept P (policy.feedback m n s)
  pub secured :
      (m : AppMapping fl) (x : fl.F) (f : SecurityFactors fl) (l : String) (s : policy.S)
      → P m
      → Kept P (policy.security_alert m x f l s)
  pub freed : (m : AppMapping fl) (s : policy.S) → P m → Kept P (policy.clear_app m s)

-- The events one by one, as the manager's thread takes them out of its queue. `none`: it ended the
-- program.
unfoldable pub run :
    (fl : Float) (policy : IBasePolicy fl)
    → List (Event fl)
    → PolicyManager fl policy
    → Option (PolicyManager fl policy)
run fl policy [] pm = some pm
run fl policy (e ∷ es) pm = elim (process_event fl policy e pm) [
  | none ↦ none
  | some next ↦ run fl policy es next
]

module _ (fl : Float) (policy : IBasePolicy fl) (P : AppMapping fl → Type 0) where
  open policy use {S, add_app, remove_app, feedback, security_alert, clear_app}

  insert-All :
      (m : AppMapping fl) (xs : List (AppMapping fl))
      → P m
      → All P xs
      → All P (insert (mapping_key fl) m xs)
  unfolding insert
  insert-All m [] p h = (p, tt)
  insert-All m (x ∷ xs) p h = elim (Bool-cases (ltb_ℤ m.app.pid x.app.pid)) [
    | inl e ↦ rw e (p, h)
    | inr e ↦ rw e (elim (Bool-cases (ltb_ℤ x.app.pid m.app.pid)) [
      | inl e' ↦ rw e' (h.0, insert-All m xs p h.1)
      | inr e' ↦ rw e' h
    ])
  ]

  find-All :
      (k : ℤ) (xs : List (AppMapping fl)) (m : AppMapping fl)
      → find (mapping_key fl) k xs ≡ some m
      → All P xs
      → P m
  unfolding find
  find-All k [] m e h = absurd cc
  find-All k (x ∷ xs) m e h = elim (Bool-cases (eqb_ℤ x.app.pid k)) [
    | inl d ↦ let e' = rw d at e in let same : x ≡ m = cc in rw same at h.0
    | inr d ↦ find-All k xs m (rw d at e) h.1
  ]

  erase-All : (k : ℤ) (xs : List (AppMapping fl)) → All P xs → All P (erase (mapping_key fl) k xs)
  unfolding erase
  erase-All k [] h = tt
  erase-All k (x ∷ xs) h = elim (Bool-cases (eqb_ℤ x.app.pid k)) [
    | inl e ↦ rw e h.1
    | inr e ↦ rw e (h.0, erase-All k xs h.1)
  ]

  share-All :
      (m : AppMapping fl) (xs : List (AppMapping fl)) → P m → All P xs → All P (share fl m xs)
  unfolding share
  share-All m [] p h = tt
  share-All m (x ∷ xs) p h = elim (Bool-cases (eqb_ℤ x.app.pid m.app.pid)) [
    | inl e ↦ rw e (p, share-All m xs p h.1)
    | inr e ↦ rw e (h.0, share-All m xs p h.1)
  ]

  abbrev pub AllOf : Option (PolicyManager fl policy) → Type 0
  AllOf none = Unit {0}
  AllOf (some pm) = All P pm.apps

  returned-All :
      (apps : List (AppMapping fl)) (r : Done fl S)
      → Kept P r
      → All P apps
      → AllOf (returned fl policy apps r)
  unfolding returned
  returned-All apps (ok u, m, s) p h = share-All m apps p h
  returned-All apps (exception, m, s) p h = tt
  returned-All apps (undefined, m, s) p h = tt

  unshared-All :
      (apps : List (AppMapping fl)) (r : Done fl S) → All P apps → AllOf (unshared fl policy apps r)
  unfolding unshared
  unshared-All apps (ok u, m, s) h = h
  unshared-All apps (exception, m, s) h = tt
  unshared-All apps (undefined, m, s) h = tt

  erased-All :
      (pid : ℤ) (r : Option (PolicyManager fl policy)) → AllOf r → AllOf (erased fl policy pid r)
  unfolding erased
  erased-All pid none h = tt
  erased-All pid (some pm) h = erase-All pid pm.apps h

  module _ (preserves : Preserves fl policy P) where
    add-All :
        (app : App) (pm : PolicyManager fl policy)
        → All P pm.apps
        → AllOf (process_add_event fl policy app pm)
    unfolding process_add_event
    add-All app pm h =
        let m = make_app_mapping fl app in
        let p = preserves.fresh app in
        let apps = insert (mapping_key fl) m pm.apps in
        let h' = insert-All m pm.apps p h in
        elim (Bool-cases (is_some (find (mapping_key fl) app.pid pm.apps))) [
          | inl e ↦ rw e (unshared-All apps (add_app apps m pm.policy_state) h')
          | inr e ↦ rw e (
              returned-All apps (add_app apps m pm.policy_state)
                (preserves.added apps m pm.policy_state p) h')
        ]

    feedback-All :
        (app : App) (n : ℤ) (pm : PolicyManager fl policy)
        → All P pm.apps
        → AllOf (process_feedback_event fl policy app n pm)
    unfolding process_feedback_event
    feedback-All app n pm h = elim (Option-cases (find (mapping_key fl) app.pid pm.apps)) [
      | inl e ↦ rw (e, process_feedback_event) h
      | inr (m, e) ↦
          rw (e, process_feedback_event)
            (returned-All pm.apps (feedback m n pm.policy_state)
              (preserves.fed_back m n pm.policy_state (find-All app.pid pm.apps m e h)) h)
    ]

    remove-All :
        (app : App) (pm : PolicyManager fl policy)
        → All P pm.apps
        → AllOf (process_remove_event fl policy app pm)
    unfolding process_remove_event
    remove-All app pm h = elim (Option-cases (find (mapping_key fl) app.pid pm.apps)) [
      | inl e ↦ rw (e, process_remove_event) h
      | inr (m, e) ↦
          rw (e, process_remove_event)
            (erased-All app.pid (returned fl policy pm.apps (remove_app pm.apps m pm.policy_state))
              (returned-All pm.apps (remove_app pm.apps m pm.policy_state)
                (preserves.removed pm.apps m pm.policy_state (find-All app.pid pm.apps m e h)) h))
    ]

    security-All :
        (app : App) (sai : fl.F) (factors : SecurityFactors fl) (labels : String)
        (pm : PolicyManager fl policy)
        → All P pm.apps
        → AllOf (process_security_event fl policy app sai factors labels pm)
    unfolding process_security_event
    security-All app sai factors labels pm h =
        elim (Option-cases (find (mapping_key fl) app.pid pm.apps)) [
          | inl e ↦ rw (e, process_security_event) h
          | inr (m, e) ↦
              rw (e, process_security_event)
                (returned-All pm.apps
                  (security_alert (record m { sai = sai }) sai factors labels pm.policy_state)
                  (preserves.secured (record m { sai = sai }) sai factors labels pm.policy_state
                    (preserves.alerted sai m (find-All app.pid pm.apps m e h)))
                  h)
        ]

    clear-All :
        (pid : ℤ) (pm : PolicyManager fl policy)
        → All P pm.apps
        → AllOf (process_clear_event fl policy pid pm)
    unfolding process_clear_event
    clear-All pid pm h = elim (Option-cases (find (mapping_key fl) pid pm.apps)) [
      | inl e ↦ rw (e, process_clear_event) h
      | inr (m, e) ↦
          rw (e, process_clear_event)
            (returned-All pm.apps (clear_app m pm.policy_state)
              (preserves.freed m pm.policy_state (find-All pid pm.apps m e h)) h)
    ]

    process_event-All :
        (e : Event fl) (pm : PolicyManager fl policy)
        → All P pm.apps
        → AllOf (process_event fl policy e pm)
    unfolding process_event process_timer_event process_monitor_event
    process_event-All (add_event app) pm h = add-All app pm h
    process_event-All (remove_event app) pm h = remove-All app pm h
    process_event-All timer_event pm h = h
    process_event-All (monitor_event load) pm h = h
    process_event-All (feedback_event app n) pm h = feedback-All app n pm h
    process_event-All (security_event app sai factors labels) pm h =
        security-All app sai factors labels pm h
    process_event-All (clear_event pid) pm h = clear-All pid pm h
    process_event-All other_event pm h = h

    -- A property that the policy preserves and that holds of all mappings of the set holds of all of
    -- them after any sequence of events that is handled.
    pub run-All :
        (es : List (Event fl)) (pm pm' : PolicyManager fl policy)
        → All P pm.apps
        → run fl policy es pm ≡ some pm'
        → All P pm'.apps
    unfolding run
    run-All [] pm pm' h e = let same : pm ≡ pm' = cc in rw same at h
    run-All (x ∷ es) pm pm' h e = elim (Option-cases (process_event fl policy x pm)) [
      | inl d ↦ absurd (let e' = rw (d, run) at e in cc)
      | inr (next, d) ↦ run-All es next pm' (rw d at (process_event-All x pm h)) (rw (d, run) at e)
    ]
