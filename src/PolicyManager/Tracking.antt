-- ===== src/PolicyManager/Tracking.antt =====
-- What the manager's set holds after each event.
use Prim.Native.String.{String}
use konro.Base.{
  ◌≡◌, ◌∙◌, inl, inr, refl, sym, ap, Option, none, some, List, [], ◌∷◌, is_some, map, arith,
  Bool-cases, Option-cases,
}
use konro.Base.Int.{ℤ, eqb_ℤ, eqb_ℤ_iff}
use konro.Base.OrderedSet.{
  insert, find, erase, insert_key, erase_key, map-insert, map-erase, key-find,
}
use konro.App.{App}
use konro.AppMapping.{AppMapping, make_app_mapping}
use konro.Effect.{ok, exception, undefined}
use konro.Float.{Float}
use konro.PolicyManager.{
  SecurityFactors, mapping_key, Done, IBasePolicy, Event, add_event, remove_event, timer_event,
  monitor_event, feedback_event, security_event, clear_event, other_event, share, PolicyManager,
  returned, unshared, process_add_event, process_remove_event, process_timer_event,
  process_monitor_event, process_feedback_event, process_security_event, process_clear_event,
  process_event, erased,
}

-- The pids after an event, for a listener that keeps track of them.
abbrev pub knows : {fl : Float} → Event fl → List ℤ → List ℤ
knows (add_event app) pids = insert_key app.pid pids
knows (remove_event app) pids = erase_key app.pid pids
knows timer_event pids = pids
knows (monitor_event load) pids = pids
knows (feedback_event app n) pids = pids
knows (security_event app sai factors labels) pids = pids
knows (clear_event pid) pids = pids
knows other_event pids = pids

module _ (fl : Float) (policy : IBasePolicy fl) where
  open policy use {S, add_app, remove_app, security_alert, security_alert-app}

  abbrev pub pids : PolicyManager fl policy → List ℤ
  pids pm = map (mapping_key fl) pm.apps

  map-share :
      (m : AppMapping fl) (xs : List (AppMapping fl))
      → map (mapping_key fl) (share fl m xs) ≡ map (mapping_key fl) xs
  unfolding share
  map-share m [] = refl
  map-share m (x ∷ xs) =
      ground (arith, map-share m xs, eqb_ℤ_iff (mapping_key fl x) (mapping_key fl m))

  abbrev Ensures : List ℤ → Option (PolicyManager fl policy) → Type 0
  Ensures ps none = Unit {0}
  Ensures ps (some pm) = pids pm ≡ ps

  returned-Ensures :
      (apps : List (AppMapping fl)) (r : Done fl S)
      → Ensures (map (mapping_key fl) apps) (returned fl policy apps r)
  unfolding returned
  returned-Ensures apps (ok u, m, s) = map-share m apps
  returned-Ensures apps (exception, m, s) = tt
  returned-Ensures apps (undefined, m, s) = tt

  erased-Ensures :
      (ps : List ℤ) (pid : ℤ) (r : Option (PolicyManager fl policy))
      → Ensures ps r
      → Ensures (erase_key pid ps) (erased fl policy pid r)
  unfolding erased
  erased-Ensures ps pid none h = tt
  erased-Ensures ps pid (some pm) h = map-erase (mapping_key fl) pid pm.apps ∙ ap (erase_key pid) h

  erase_absent :
      (k : ℤ) (xs : List (AppMapping fl))
      → find (mapping_key fl) k xs ≡ none
      → erase (mapping_key fl) k xs ≡ xs
  unfolding find erase
  erase_absent k [] h = refl
  erase_absent k (x ∷ xs) h = ground (arith, erase_absent k xs)

  unshared-Ensures :
      (apps : List (AppMapping fl)) (r : Done fl S)
      → Ensures (map (mapping_key fl) apps) (unshared fl policy apps r)
  unfolding unshared
  unshared-Ensures apps (ok u, m, s) = refl
  unshared-Ensures apps (exception, m, s) = tt
  unshared-Ensures apps (undefined, m, s) = tt

  keys :
      {ps qs : List ℤ} (r : Option (PolicyManager fl policy))
      → ps ≡ qs
      → Ensures ps r
      → Ensures qs r
  keys none e h = tt
  keys (some pm) e h = h ∙ e

  add-Ensures :
      (app : App) (pm : PolicyManager fl policy)
      → Ensures (insert_key app.pid (pids pm)) (process_add_event fl policy app pm)
  unfolding process_add_event
  add-Ensures app pm =
      let m = make_app_mapping fl app in
      let apps = insert (mapping_key fl) m pm.apps in
      keys (process_add_event fl policy app pm) (map-insert (mapping_key fl) m pm.apps)
        (elim (Bool-cases (is_some (find (mapping_key fl) app.pid pm.apps))) [
          | inl e ↦ rw e (unshared-Ensures apps (add_app apps m pm.policy_state))
          | inr e ↦ rw e (returned-Ensures apps (add_app apps m pm.policy_state))
        ])

  remove-Ensures :
      (app : App) (pm : PolicyManager fl policy)
      → Ensures (erase_key app.pid (pids pm)) (process_remove_event fl policy app pm)
  unfolding process_remove_event
  remove-Ensures app pm = elim (Option-cases (find (mapping_key fl) app.pid pm.apps)) [
    | inl e ↦
        rw (e, process_remove_event)
          (ap (map (mapping_key fl)) (sym (erase_absent app.pid pm.apps e))
            ∙ map-erase (mapping_key fl) app.pid pm.apps)
    | inr (m, e) ↦
        rw (e, process_remove_event)
          (erased-Ensures (pids pm) app.pid
            (returned fl policy pm.apps (remove_app pm.apps m pm.policy_state))
            (returned-Ensures pm.apps (remove_app pm.apps m pm.policy_state)))
  ]

  feedback-Ensures :
      (app : App) (n : ℤ) (pm : PolicyManager fl policy)
      → Ensures (pids pm) (process_feedback_event fl policy app n pm)
  unfolding process_feedback_event
  feedback-Ensures app n pm = elim (Option-cases (find (mapping_key fl) app.pid pm.apps)) [
    | inl e ↦ rw (e, process_feedback_event) refl
    | inr (m, e) ↦ rw (e, process_feedback_event) (returned-Ensures pm.apps _)
  ]

  security-Ensures :
      (app : App) (sai : fl.F) (factors : SecurityFactors fl) (labels : String)
      (pm : PolicyManager fl policy)
      → Ensures (pids pm) (process_security_event fl policy app sai factors labels pm)
  unfolding process_security_event
  security-Ensures app sai factors labels pm =
      elim (Option-cases (find (mapping_key fl) app.pid pm.apps)) [
        | inl e ↦ rw (e, process_security_event) refl
        | inr (m, e) ↦ rw (e, process_security_event) (returned-Ensures pm.apps _)
      ]

  clear-Ensures :
      (pid : ℤ) (pm : PolicyManager fl policy)
      → Ensures (pids pm) (process_clear_event fl policy pid pm)
  unfolding process_clear_event
  clear-Ensures pid pm = elim (Option-cases (find (mapping_key fl) pid pm.apps)) [
    | inl e ↦ rw (e, process_clear_event) refl
    | inr (m, e) ↦ rw (e, process_clear_event) (returned-Ensures pm.apps _)
  ]

  process_event-Ensures :
      (e : Event fl) (pm : PolicyManager fl policy)
      → Ensures (knows e (pids pm)) (process_event fl policy e pm)
  unfolding process_event process_timer_event process_monitor_event
  process_event-Ensures (add_event app) pm = add-Ensures app pm
  process_event-Ensures (remove_event app) pm = remove-Ensures app pm
  process_event-Ensures timer_event pm = refl
  process_event-Ensures (monitor_event load) pm = refl
  process_event-Ensures (feedback_event app n) pm = feedback-Ensures app n pm
  process_event-Ensures (security_event app sai factors labels) pm =
      security-Ensures app sai factors labels pm
  process_event-Ensures (clear_event pid) pm = clear-Ensures pid pm
  process_event-Ensures other_event pm = refl

  -- Whatever the policy does, an event that is handled changes the set of pids as its type says: an
  -- AddEvent adds its pid, a RemoveEvent takes it away, and no other event changes the set.
  pub process_event-knows :
      (e : Event fl) (pm pm' : PolicyManager fl policy)
      → process_event fl policy e pm ≡ some pm'
      → pids pm' ≡ knows e (pids pm)
  process_event-knows e pm pm' h = rw h at (process_event-Ensures e pm)

  find-share :
      (m : AppMapping fl) (xs : List (AppMapping fl)) (x : AppMapping fl)
      → find (mapping_key fl) m.app.pid xs ≡ some x
      → find (mapping_key fl) m.app.pid (share fl m xs) ≡ some m
  unfolding find share
  find-share m [] x h = cc
  find-share m (y ∷ ys) x h = elim (Bool-cases (eqb_ℤ y.app.pid m.app.pid)) [
    | inl e ↦ rw (e, (eqb_ℤ_iff m.app.pid m.app.pid).1 refl) refl
    | inr e ↦ rw (e, e) (find-share m ys x (rw e at h))
  ]

  find-returned :
      (k : ℤ) (apps : List (AppMapping fl)) (x : AppMapping fl) (r : Done fl S)
      (pm : PolicyManager fl policy)
      → find (mapping_key fl) k apps ≡ some x
      → r.1.app.pid ≡ k
      → returned fl policy apps r ≡ some pm
      → (find (mapping_key fl) k pm.apps ≡ some r.1) × (pm.policy_state ≡ r.2)
  unfolding returned
  find-returned k apps x (ok u, m, s) pm f e h =
      let g = rw (← e) at f in rw (← e) (ground (arith, find-share m apps x g))
  find-returned k apps x (exception, m, s) pm f e h = absurd (cc)
  find-returned k apps x (undefined, m, s) pm f e h = absurd (cc)

  -- After a security event for a tracked app that the policy handles, the manager's set holds the
  -- mapping as the policy left it, with the event's SAI stored in it before, and the policy's state.
  pub process_security_event-find :
      (app : App) (sai : fl.F) (factors : SecurityFactors fl) (labels : String) (m : AppMapping fl)
      (pm pm' : PolicyManager fl policy)
      → find (mapping_key fl) app.pid pm.apps ≡ some m
      → process_security_event fl policy app sai factors labels pm ≡ some pm'
      → let r = security_alert (record m { sai = sai }) sai factors labels pm.policy_state in
        (find (mapping_key fl) app.pid pm'.apps ≡ some r.1) × (pm'.policy_state ≡ r.2)
  unfolding process_security_event
  process_security_event-find app sai factors labels m pm pm' f h =
      let r = security_alert (record m { sai = sai }) sai factors labels pm.policy_state in
      let same =
        ap (λ (a : App). a.pid)
          (security_alert-app (record m { sai = sai }) sai factors labels pm.policy_state)
        ∙ key-find (mapping_key fl) app.pid m pm.apps f in
      find-returned app.pid pm.apps m r pm' f same (rw (f, process_security_event) at h)
