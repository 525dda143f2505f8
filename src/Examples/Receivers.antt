-- ===== src/Examples/Receivers.antt =====
-- A thread that takes events out of its queue.
use konro.Base.{arith, ℕ, ◌+◌, ◌≡◌, refl, Bool, true, false, List, [], ◌∷◌}
use konro.EventReceiver.{EventReceiver, at_wait, at_end, Move, adds, stops, steps, run}
use konro.EventReceiver.Order.{Took, run-Took}
use konro.EventReceiver.Stop.{AtMost, run-at_end}

-- A thread that sums what it is sent.
abbrev sum : ℕ → ℕ → ℕ × Bool
sum e s = (s + e, true)

abbrev waiting : EventReceiver sum
waiting = record { place = at_wait; stop_flag = false; queue = 1 ∷ 2 ∷ []; state = 0 }

-- A third event comes before the first is handled, and the thread is stopped before the second is.
abbrev stopped_early : List (Move sum)
stopped_early = adds 3 ∷ steps ∷ stops ∷ steps ∷ steps ∷ []

run-Took_example : (es : List ℕ) × Took sum waiting (3 ∷ []) (run sum stopped_early waiting) es
run-Took_example = run-Took sum stopped_early waiting

run-at_end_example :
    AtMost sum 1 0 (run sum (steps ∷ steps ∷ []) (record waiting { stop_flag = true })).state
    × ((run sum (steps ∷ steps ∷ []) (record waiting { stop_flag = true })).place ≡ at_end)
run-at_end_example =
    run-at_end sum (steps ∷ steps ∷ []) (record waiting { stop_flag = true }) refl (omega arith)
