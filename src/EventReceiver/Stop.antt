-- ===== src/EventReceiver/Stop.antt =====
-- The thread ends once it is stopped.
use konro.Base.{
  ℕ, ◌+◌, ◌≤◌, ◌≡◌, ◌∙◌, refl, sym, ap, Bool, true, not, ◌||◌, List, [], ◌∷◌, arith, length, ◌++◌,
  length-append,
}
use konro.EventReceiver.{
  Place, at_test, at_wait, at_end, EventReceiver, add_event, stop, handle, advance, Move, adds,
  stops, steps, move, run, handled, steps_of,
}
use konro.EventReceiver.Order.{handled-append}
use konro.Queue.{wait_and_pop_for}

-- How many steps a thread whose flag is set still needs, and how many events it handles meanwhile: one,
-- where it has looked at the flag before.
abbrev pub left_steps : Place → ℕ
left_steps at_test = 1
left_steps at_wait = 2
left_steps at_end = 0

abbrev pub left_over : Place → ℕ
left_over at_test = 0
left_over at_wait = 1
left_over at_end = 0

module _ {E S : Type 0} (process_event : E → S → S × Bool) where
  abbrev R : Type 0
  R = EventReceiver process_event

  -- From r to t at most n events were handled.
  abbrev pub AtMost : ℕ → S → S → Type 0
  AtMost n s t = (es : List E) × (t ≡ handled process_event es s) × (length es ≤ n)

  -- Where the thread stands after a step: at its end, or one step nearer to it, its flag still set.
  record Advanced (place : Place) (r t : R) : Type 0 where
    flagged : t.stop_flag ≡ true
    nearer : (n : ℕ) → left_steps place ≤ n + 1 → left_steps t.place ≤ n
    rest : ℕ
    rest_lem : rest + left_over t.place ≤ left_over place
    took : AtMost rest r.state t.state

  or_true : (a b : Bool) → b ≡ true → (a || b) ≡ true
  or_true a b h = ground arith

  waited :
      (r : R) (q : List E)
      → r.stop_flag ≡ true
      → Advanced at_wait r (handle process_event (wait_and_pop_for q) r)
  unfolding handle wait_and_pop_for
  waited r [] h = record {
    flagged = h;
    nearer = λ n k. omega arith;
    rest = 0;
    rest_lem = omega arith;
    took = ([], refl, omega arith);
  }
  waited r (event ∷ q) h = record {
    flagged = or_true (not (process_event event r.state).1) r.stop_flag h;
    nearer = λ n k. omega arith;
    rest = 1;
    rest_lem = omega arith;
    took = (event ∷ [], refl, ground arith);
  }

  advance-Advanced :
      (place : Place) (r : R)
      → r.place ≡ place
      → r.stop_flag ≡ true
      → Advanced place r (advance process_event place r)
  unfolding advance
  advance-Advanced at_test r e h = record {
    flagged = h;
    nearer = λ n k. rw h (omega arith);
    rest = 0;
    rest_lem = rw h (omega arith);
    took = ([], refl, omega arith);
  }
  advance-Advanced at_wait r e h = waited r r.queue h
  advance-Advanced at_end r e h = record {
    flagged = h;
    nearer = λ n k. rw e (omega arith);
    rest = 0;
    rest_lem = rw e (omega arith);
    took = ([], refl, omega arith);
  }

  AtMost-then : (n k l : ℕ) (s t u : S) → n + k ≤ l → AtMost n s t → AtMost k t u → AtMost l s u
  AtMost-then n k l s t u h (es, e, b) (fs, f, d) = (
    es ++ fs,
    f ∙ ap (handled process_event fs) e ∙ sym (handled-append process_event es fs s),
    rw (length-append es fs) (omega arith),
  )

  run-ends :
      (ms : List (Move process_event)) (r : R)
      → r.stop_flag ≡ true
      → AtMost (left_over r.place) r.state (run process_event ms r).state
        × (left_steps r.place ≤ steps_of process_event ms → (run process_event ms r).place ≡ at_end)
  unfolding run move add_event stop
  run-ends [] r h = (([], refl, omega arith), ended r.place)
    where
      ended : (place : Place) → left_steps place ≤ 0 → place ≡ at_end
      ended at_test k = absurd (omega arith)
      ended at_wait k = absurd (omega arith)
      ended at_end k = refl
  run-ends (adds event ∷ ms) r h = run-ends ms (add_event process_event event r) h
  run-ends (stops ∷ ms) r h = run-ends ms (stop process_event r) refl
  run-ends (steps ∷ ms) r h =
      let t = advance process_event r.place r in
      let a = advance-Advanced r.place r refl h in
      let (few, ends) = run-ends ms t a.flagged in
      (
        AtMost-then a.rest (left_over t.place) (left_over r.place) r.state t.state
            (run process_event ms t).state a.rest_lem a.took few,
        λ k. ends (a.nearer (steps_of process_event ms) k),
      )

  -- A thread that is stopped and then takes the steps that its place leaves it, two at most, is at its
  -- end, whatever other threads do meanwhile; it has handled one further event at most, and that only
  -- where it had looked at the flag before.
  pub run-at_end :
      (ms : List (Move process_event)) (r : R)
      → r.stop_flag ≡ true
      → left_steps r.place ≤ steps_of process_event ms
      → AtMost (left_over r.place) r.state (run process_event ms r).state
        × ((run process_event ms r).place ≡ at_end)
  run-at_end ms r h k = let (few, ends) = run-ends ms r h in (few, ends k)
