-- ===== src/PolicyTimer/Period.antt =====
-- The timer's events are not early, and none follows a stop but one that was under way.
use konro.Base.{
  ℕ, zero, suc, ◌+◌, ◌≤◌, ◌≡◌, ◌⊎◌, inl, inr, refl, true, false, Bool-cases, List, [], ◌∷◌, arith,
}
use konro.Base.Int.{ℤ, pos, negsuc}
use konro.PolicyTimer.{
  Place, at_loop, at_sleep, at_check, at_publish, at_end, PolicyTimer, is_below, sleep, advance,
  Move, stops, steps, move, run,
}

-- The seconds of a period: none for a negative number.
abbrev period : ℤ → ℕ
period (pos n) = n
period (negsuc n) = 0

-- The seconds of n periods.
abbrev due : ℤ → ℕ → ℕ
due seconds zero = 0
due seconds (suc n) = period seconds + due seconds n

is_below_lem : (i : ℕ) (s : ℤ) → is_below i s ≡ false → period s ≤ i
is_below_lem i (pos n) h = ground arith
is_below_lem i (negsuc n) h = omega arith

-- How many events a timer whose flag is set still publishes.
abbrev left_over : Place → ℕ
left_over at_loop = 0
left_over (at_sleep i) = 0
left_over at_check = 0
left_over at_publish = 1
left_over at_end = 0

module _ (seconds : ℤ) where
  -- What is slept already of the period that runs.
  abbrev Slept : Place → PolicyTimer → Type 0
  Slept at_loop t = due seconds t.published ≤ t.slept
  Slept (at_sleep i) t = due seconds t.published + i ≤ t.slept
  Slept at_check t =
      (due seconds t.published ≤ t.slept)
      × ((t.stop_flag ≡ true) ⊎ (due seconds (suc t.published) ≤ t.slept))
  Slept at_publish t = due seconds (suc t.published) ≤ t.slept
  Slept at_end t = due seconds t.published ≤ t.slept

  sleep-Slept :
      (i : ℕ) (t : PolicyTimer)
      → due seconds t.published + i ≤ t.slept
      → Slept (sleep seconds i t).place (sleep seconds i t)
  unfolding sleep
  sleep-Slept i t h = elim (Bool-cases (is_below i seconds)) [
    | inr e ↦ let k = is_below_lem i seconds e in rw e (omega arith, inr (omega arith))
    | inl e ↦ rw e (elim (Bool-cases t.stop_flag) [
      | inl f ↦ rw f (omega arith, inl refl)
      | inr f ↦ rw f (omega arith)
    ])
  ]

  advance-Slept :
      (place : Place) (t : PolicyTimer)
      → t.place ≡ place
      → Slept place t
      → Slept (advance seconds place t).place (advance seconds place t)
  unfolding advance
  advance-Slept at_loop t e h = elim (Bool-cases t.stop_flag) [
    | inl f ↦ rw f h
    | inr f ↦ rw f (omega arith)
  ]
  advance-Slept (at_sleep i) t e h = sleep-Slept i t h
  advance-Slept at_check t e (h, inl k) = rw k h
  advance-Slept at_check t e (h, inr k) = elim (Bool-cases t.stop_flag) [
    | inl f ↦ rw f h
    | inr f ↦ rw f k
  ]
  advance-Slept at_publish t e h = h
  advance-Slept at_end t e h = rw e h

  Slept-stop :
      (place : Place) (t : PolicyTimer)
      → Slept place t
      → Slept place (record t { stop_flag = true })
  Slept-stop at_loop t h = h
  Slept-stop (at_sleep i) t h = h
  Slept-stop at_check t h = (h.0, inl refl)
  Slept-stop at_publish t h = h
  Slept-stop at_end t h = h

  Slept-due : (place : Place) (t : PolicyTimer) → Slept place t → due seconds t.published ≤ t.slept
  Slept-due at_loop t h = h
  Slept-due (at_sleep i) t h = omega arith
  Slept-due at_check t h = h.0
  Slept-due at_publish t h = omega arith
  Slept-due at_end t h = h

  run-Slept :
      (ms : List Move) (t : PolicyTimer)
      → Slept t.place t
      → Slept (run seconds ms t).place (run seconds ms t)
  unfolding run move
  run-Slept [] t h = h
  run-Slept (stops ∷ ms) t h = run-Slept ms _ (Slept-stop t.place t h)
  run-Slept (steps ∷ ms) t h = run-Slept ms _ (advance-Slept t.place t refl h)

  advance-flagged :
      (place : Place) (t : PolicyTimer)
      → t.place ≡ place
      → t.stop_flag ≡ true
      → ((advance seconds place t).stop_flag ≡ true)
        × ((advance seconds place t).published + left_over (advance seconds place t).place
            ≤ t.published + left_over place)
  unfolding advance sleep
  advance-flagged at_loop t e h = (h, rw h (omega arith))
  advance-flagged (at_sleep i) t e h = elim (Bool-cases (is_below i seconds)) [
    | inl f ↦ rw (f, h) (refl, omega arith)
    | inr f ↦ rw f (h, omega arith)
  ]
  advance-flagged at_check t e h = (h, rw h (omega arith))
  advance-flagged at_publish t e h = (h, omega arith)
  advance-flagged at_end t e h = (h, rw e (omega arith))

  -- A timer that is stopped publishes nothing more but the event that it may be about to publish.
  run-flagged :
      (ms : List Move) (t : PolicyTimer)
      → t.stop_flag ≡ true
      → (run seconds ms t).published ≤ t.published + left_over t.place
  unfolding run move
  run-flagged [] t h = omega arith
  run-flagged (stops ∷ ms) t h = run-flagged ms (record t { stop_flag = true }) refl
  run-flagged (steps ∷ ms) t h =
      let a = advance-flagged t.place t refl h in
      omega (arith, run-flagged ms (advance seconds t.place t) a.0, a.1)

  -- From the start of its loop on, whatever the timing of a stop, the timer has published at most one
  -- event for each whole period of its seconds that it has slept.
  run-due :
      (ms : List Move) (t : PolicyTimer)
      → t.place ≡ at_loop
      → due seconds t.published ≤ t.slept
      → due seconds (run seconds ms t).published ≤ (run seconds ms t).slept
  run-due ms t e h = Slept-due (run seconds ms t).place (run seconds ms t) (run-Slept ms t (rw e h))
