-- ===== src/PolicyManager/Lasting.antt =====
-- What holds of one tracked app holds of it until an event names the app to add, remove or clear it.
use Prim.Native.String.{String}
use konro.Base.{
  ◌≡◌, ◌∙◌, sym, ap, inl, inr, false, Option, none, some, List, [], ◌∷◌, is_some, All, Bool-cases,
  Option-cases,
}
use konro.Base.Int.{ℤ, eqb_ℤ, eqb_ℤ_iff}
use konro.Base.OrderedSet.{insert, find, key-find, find-insert_ne, find-erase_ne}
use konro.App.{App}
use konro.AppMapping.{AppMapping, make_app_mapping}
use konro.Effect.{ok, exception, undefined}
use konro.Float.{Float}
use konro.PolicyManager.{
  SecurityFactors, mapping_key, Done, IBasePolicy, Event, add_event, remove_event, timer_event,
  monitor_event, feedback_event, security_event, clear_event, other_event, share, PolicyManager,
  returned, unshared, process_add_event, process_remove_event, process_timer_event,
  process_monitor_event, process_feedback_event, process_security_event, process_clear_event,
  process_event, erased,
}
use konro.PolicyManager.Preserved.{run}

-- The event does not add, remove or clear the app of the pid.
abbrev pub LeavesTracked : {fl : Float} → ℤ → Event fl → Type 0
LeavesTracked k (add_event app) = eqb_ℤ app.pid k ≡ false
LeavesTracked k (remove_event app) = eqb_ℤ app.pid k ≡ false
LeavesTracked k timer_event = Unit {0}
LeavesTracked k (monitor_event load) = Unit {0}
LeavesTracked k (feedback_event app n) = Unit {0}
LeavesTracked k (security_event app sai factors labels) = Unit {0}
LeavesTracked k (clear_event pid) = eqb_ℤ pid k ≡ false
LeavesTracked k other_event = Unit {0}

-- Neither feedback nor an alert ends the property, and a removal leaves the mapping's app.
pub record Lasts (fl : Float) (policy : IBasePolicy fl) (P : AppMapping fl → Type 0) : Type 0 where
  pub fed_back : (m : AppMapping fl) (n : ℤ) (s : policy.S) → P m → P (policy.feedback m n s).1
  pub secured :
      (m : AppMapping fl) (x : fl.F) (f : SecurityFactors fl) (l : String) (s : policy.S)
      → P m
      → P (policy.security_alert (record m { sai = x }) x f l s).1
  pub remove_app-app :
      (ms : List (AppMapping fl)) (m : AppMapping fl) (s : policy.S)
      → (policy.remove_app ms m s).1.app ≡ m.app

other_key : (j k : ℤ) → eqb_ℤ j k ≡ false → j ≡ k → ⊥
other_key j k h e = let t = (eqb_ℤ_iff j k).1 e in cc

module _ (fl : Float) (policy : IBasePolicy fl) (P : AppMapping fl → Type 0) (k : ℤ) where
  open policy use {S, add_app, remove_app, feedback, security_alert, clear_app}

  abbrev pub HoldsOf : Option (AppMapping fl) → Type 0
  HoldsOf none = ⊥
  HoldsOf (some m) = P m

  abbrev Holds : List (AppMapping fl) → Type 0
  Holds apps = HoldsOf (find (mapping_key fl) k apps)

  abbrev HoldsAfter : Option (PolicyManager fl policy) → Type 0
  HoldsAfter none = Unit {0}
  HoldsAfter (some pm) = Holds pm.apps

  share-Holds :
      (m : AppMapping fl) (xs : List (AppMapping fl))
      → Holds xs
      → (m.app.pid ≡ k → P m)
      → Holds (share fl m xs)
  unfolding find share
  share-Holds m [] h p = absurd h
  share-Holds m (x ∷ xs) h p = elim (Bool-cases (eqb_ℤ x.app.pid m.app.pid)) [
    | inl e ↦ rw e (elim (Bool-cases (eqb_ℤ m.app.pid k)) [
      | inl f ↦ rw f (p ((eqb_ℤ_iff m.app.pid k).0 f))
      | inr f ↦
          let q = ap (λ j. eqb_ℤ j k) ((eqb_ℤ_iff x.app.pid m.app.pid).0 e) ∙ f in
          rw f (share-Holds m xs (rw q at h) p)
    ])
    | inr e ↦ rw e (elim (Bool-cases (eqb_ℤ x.app.pid k)) [
      | inl f ↦ rw f (rw f at h)
      | inr f ↦ rw f (share-Holds m xs (rw f at h) p)
    ])
  ]

  returned-Holds :
      (apps : List (AppMapping fl)) (r : Done fl S)
      → Holds apps
      → (r.1.app.pid ≡ k → P r.1)
      → HoldsAfter (returned fl policy apps r)
  unfolding returned
  returned-Holds apps (ok u, m, s) h p = share-Holds m apps h p
  returned-Holds apps (exception, m, s) h p = tt
  returned-Holds apps (undefined, m, s) h p = tt

  unshared-Holds :
      (apps : List (AppMapping fl)) (r : Done fl S)
      → Holds apps
      → HoldsAfter (unshared fl policy apps r)
  unfolding unshared
  unshared-Holds apps (ok u, m, s) h = h
  unshared-Holds apps (exception, m, s) h = tt
  unshared-Holds apps (undefined, m, s) h = tt

  erased-Holds :
      (pid : ℤ) (r : Option (PolicyManager fl policy))
      → eqb_ℤ pid k ≡ false
      → HoldsAfter r
      → HoldsAfter (erased fl policy pid r)
  unfolding erased
  erased-Holds pid none e h = tt
  erased-Holds pid (some pm) e h = rw (find-erase_ne (mapping_key fl) pid k pm.apps e) h

  add-Holds :
      (app : App) (pm : PolicyManager fl policy)
      → eqb_ℤ app.pid k ≡ false
      → Holds pm.apps
      → HoldsAfter (process_add_event fl policy app pm)
  unfolding process_add_event
  add-Holds app pm e h =
      let m = make_app_mapping fl app in
      let apps = insert (mapping_key fl) m pm.apps in
      let h' : Holds apps = rw (find-insert_ne (mapping_key fl) k m pm.apps e) h in
      let r = add_app apps m pm.policy_state in
      elim (Bool-cases (is_some (find (mapping_key fl) app.pid pm.apps))) [
        | inl f ↦ rw f (unshared-Holds apps r h')
        | inr f ↦ rw f (
            returned-Holds apps r h' (λ q. absurd (
              other_key app.pid k e
                (sym (ap (λ (a : App). a.pid) (policy.add_app-app apps m pm.policy_state)) ∙ q))))
      ]

  -- What an operation makes of the mapping that was found, where it leaves the mapping's app.
  found_lem :
      (pid : ℤ) (apps : List (AppMapping fl)) (m : AppMapping fl) (r : Done fl S)
      → find (mapping_key fl) pid apps ≡ some m
      → r.1.app ≡ m.app
      → Holds apps
      → (pid ≡ k → P m → P r.1)
      → HoldsAfter (returned fl policy apps r)
  found_lem pid apps m r f e h p = returned-Holds apps r h (λ q.
      let same : pid ≡ k =
        sym (ap (λ (a : App). a.pid) e ∙ key-find (mapping_key fl) pid m apps f) ∙ q in
      p same (rw (sym same, f) at h))

  module _ (lasts : Lasts fl policy P) where
    feedback-Holds :
        (app : App) (n : ℤ) (pm : PolicyManager fl policy)
        → Holds pm.apps
        → HoldsAfter (process_feedback_event fl policy app n pm)
    unfolding process_feedback_event
    feedback-Holds app n pm h = elim (Option-cases (find (mapping_key fl) app.pid pm.apps)) [
      | inl e ↦ rw (e, process_feedback_event) h
      | inr (m, e) ↦
          rw (e, process_feedback_event)
            (found_lem app.pid pm.apps m (feedback m n pm.policy_state) e
              (policy.feedback-app m n pm.policy_state) h
              (λ q p. lasts.fed_back m n pm.policy_state p))
    ]

    security-Holds :
        (app : App) (sai : fl.F) (factors : SecurityFactors fl) (labels : String)
        (pm : PolicyManager fl policy)
        → Holds pm.apps
        → HoldsAfter (process_security_event fl policy app sai factors labels pm)
    unfolding process_security_event
    security-Holds app sai factors labels pm h =
        elim (Option-cases (find (mapping_key fl) app.pid pm.apps)) [
          | inl e ↦ rw (e, process_security_event) h
          | inr (m, e) ↦
              let m' = record m { sai = sai } in
              rw (e, process_security_event)
                (found_lem app.pid pm.apps m (security_alert m' sai factors labels pm.policy_state)
                  e (policy.security_alert-app m' sai factors labels pm.policy_state) h
                  (λ q p. lasts.secured m sai factors labels pm.policy_state p))
        ]

    remove-Holds :
        (app : App) (pm : PolicyManager fl policy)
        → eqb_ℤ app.pid k ≡ false
        → Holds pm.apps
        → HoldsAfter (process_remove_event fl policy app pm)
    unfolding process_remove_event
    remove-Holds app pm d h = elim (Option-cases (find (mapping_key fl) app.pid pm.apps)) [
      | inl e ↦ rw (e, process_remove_event) h
      | inr (m, e) ↦
          let r = remove_app pm.apps m pm.policy_state in
          rw (e, process_remove_event)
            (erased-Holds app.pid (returned fl policy pm.apps r) d (
              found_lem app.pid pm.apps m r e (lasts.remove_app-app pm.apps m pm.policy_state) h
                (λ q p. absurd (other_key app.pid k d q))))
    ]

    clear-Holds :
        (pid : ℤ) (pm : PolicyManager fl policy)
        → eqb_ℤ pid k ≡ false
        → Holds pm.apps
        → HoldsAfter (process_clear_event fl policy pid pm)
    unfolding process_clear_event
    clear-Holds pid pm d h = elim (Option-cases (find (mapping_key fl) pid pm.apps)) [
      | inl e ↦ rw (e, process_clear_event) h
      | inr (m, e) ↦
          rw (e, process_clear_event)
            (found_lem pid pm.apps m (clear_app m pm.policy_state) e
              (policy.clear_app-app m pm.policy_state) h (λ q p. absurd (other_key pid k d q)))
    ]

    process_event-Holds :
        (e : Event fl) (pm : PolicyManager fl policy)
        → LeavesTracked k e
        → Holds pm.apps
        → HoldsAfter (process_event fl policy e pm)
    unfolding process_event process_timer_event process_monitor_event
    process_event-Holds (add_event app) pm l h = add-Holds app pm l h
    process_event-Holds (remove_event app) pm l h = remove-Holds app pm l h
    process_event-Holds timer_event pm l h = h
    process_event-Holds (monitor_event load) pm l h = h
    process_event-Holds (feedback_event app n) pm l h = feedback-Holds app n pm h
    process_event-Holds (security_event app sai factors labels) pm l h =
        security-Holds app sai factors labels pm h
    process_event-Holds (clear_event pid) pm l h = clear-Holds pid pm l h
    process_event-Holds other_event pm l h = h

    -- A property that lasts and that holds of a tracked app holds of it, still tracked, after any
    -- events that are handled, of which none adds, removes or clears it.
    pub run-Holds :
        (es : List (Event fl)) (pm pm' : PolicyManager fl policy)
        → All (LeavesTracked k) es
        → Holds pm.apps
        → run fl policy es pm ≡ some pm'
        → Holds pm'.apps
    unfolding run
    run-Holds [] pm pm' l h e = let same : pm ≡ pm' = cc in rw same at h
    run-Holds (x ∷ es) pm pm' l h e = elim (Option-cases (process_event fl policy x pm)) [
      | inl d ↦ absurd (let e' = rw (d, run) at e in cc)
      | inr (next, d) ↦
          run-Holds es next pm' l.1 (rw d at (process_event-Holds x pm l.0 h)) (rw (d, run) at e)
    ]
