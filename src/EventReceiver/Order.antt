-- ===== src/EventReceiver/Order.antt =====
-- Which events the thread handles, in which order.
use konro.Base.{◌≡◌, ◌∙◌, refl, sym, ap, Bool, List, [], ◌∷◌, ◌++◌, append_assoc, append-nil}
use konro.EventReceiver.{
  Place, at_test, at_wait, at_end, EventReceiver, add_event, stop, handle, advance, Move, adds,
  stops, steps, move, run, added, handled,
}
use konro.Queue.{push, wait_and_pop_for}

module _ {E S : Type 0} (process_event : E → S → S × Bool) where
  abbrev R : Type 0
  R = EventReceiver process_event

  -- The events es were handled from r to t, where further ones were queued.
  abbrev pub Took : R → List E → R → List E → Type 0
  Took r further t es =
      (t.state ≡ handled process_event es r.state) × (es ++ t.queue ≡ r.queue ++ further)

  pub handled-append :
      (es fs : List E) (s : S)
      → handled process_event (es ++ fs) s ≡ handled process_event fs (handled process_event es s)
  handled-append [] fs s = refl
  handled-append (event ∷ es) fs s = handled-append es fs (process_event event s).0

  waited :
      (r : R) (q : List E)
      → r.queue ≡ q
      → (es : List E) × Took r [] (handle process_event (wait_and_pop_for q) r) es
  unfolding handle wait_and_pop_for
  waited r [] e = ([], (refl, sym (append-nil r.queue ∙ e)))
  waited r (event ∷ q) e = (event ∷ [], (refl, sym (append-nil r.queue ∙ e)))

  advance-Took :
      (place : Place) (r : R) → (es : List E) × Took r [] (advance process_event place r) es
  unfolding advance
  advance-Took at_test r = ([], (refl, sym (append-nil r.queue)))
  advance-Took at_wait r = waited r r.queue refl
  advance-Took at_end r = ([], (refl, sym (append-nil r.queue)))

  Took-then :
      (r t u : R) (more further es fs : List E)
      → Took r more t es
      → Took t further u fs
      → Took r (more ++ further) u (es ++ fs)
  Took-then r t u more further es fs h k = (
    k.0 ∙ ap (handled process_event fs) h.0 ∙ sym (handled-append es fs r.state),
    append_assoc es fs u.queue
        ∙ ap (λ q. es ++ q) k.1
        ∙ sym (append_assoc es t.queue further)
        ∙ ap (λ q. q ++ further) h.1
        ∙ append_assoc r.queue more further,
  )

  -- Whatever other threads do meanwhile, the events that the thread has handled, one behind the other,
  -- are the first of those that were queued, in their order, and those behind them are still queued: none
  -- is lost, doubled or overtaken.
  pub run-Took :
      (ms : List (Move process_event)) (r : R)
      → (es : List E) × Took r (added process_event ms) (run process_event ms r) es
  unfolding run move add_event stop push
  run-Took [] r = ([], (refl, sym (append-nil r.queue)))
  run-Took (adds event ∷ ms) r =
      let t = add_event process_event event r in
      let (es, (s, q)) = run-Took ms t in
      (es, (s, q ∙ append_assoc r.queue (event ∷ []) (added process_event ms)))
  run-Took (stops ∷ ms) r = run-Took ms (stop process_event r)
  run-Took (steps ∷ ms) r =
      let t = advance process_event r.place r in
      let (es, h) = advance-Took r.place r in
      let (fs, k) = run-Took ms t in
      (es ++ fs, Took-then r t (run process_event ms t) [] (added process_event ms) es fs h k)
