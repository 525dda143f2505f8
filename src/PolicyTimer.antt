-- ===== src/PolicyTimer.antt =====
-- rm/policymanager/policytimer.cpp: a thread that publishes a TimerEvent every so many seconds, until it
-- is stopped. Other threads stop it between any two of its steps; a second of sleep is one step.
pub mod Period
use konro.Base.{ℕ, suc, Bool, true, false, not, ◌&&◌, List, [], ◌∷◌, ltb, if◌then◌else◌}
use konro.Base.Int.{ℤ, pos, negsuc}

-- Where the thread stands in `run`: at the loop, at the test of the inner loop with its `i`, behind it,
-- at the publication, or at the end.
pub data Place : Type 0 where
  at_loop : Place
  at_sleep : ℕ → Place
  at_check at_publish at_end : Place

-- The events published and the seconds slept are counted.
pub record PolicyTimer : Type 0 where
  pub place : Place
  pub stop_flag : Bool
  pub slept : ℕ
  pub published : ℕ

-- `i < seconds_`
abbrev pub is_below : ℕ → ℤ → Bool
is_below i (pos n) = ltb i n
is_below i (negsuc n) = false

pub data Move : Type 0 where
  stops : Move
  steps : Move

-- `seconds_` is never changed.
module _ (seconds : ℤ) where
  unfoldable pub sleep : ℕ → PolicyTimer → PolicyTimer
  sleep i t =
      if is_below i seconds && not t.stop_flag
      then record t { slept = suc t.slept; place = at_sleep (suc i) }
      else record t { place = at_check }

  unfoldable pub advance : Place → PolicyTimer → PolicyTimer
  unfolding sleep
  advance at_loop t = record t { place = if t.stop_flag then at_end else at_sleep 0 }
  advance (at_sleep i) t = sleep i t
  advance at_check t = record t { place = if t.stop_flag then at_loop else at_publish }
  advance at_publish t = record t { published = suc t.published; place = at_loop }
  advance at_end t = t

  unfoldable pub move : Move → PolicyTimer → PolicyTimer
  unfolding advance
  move stops t = record t { stop_flag = true }
  move steps t = advance t.place t

  unfoldable pub run : List Move → PolicyTimer → PolicyTimer
  unfolding move
  run [] t = t
  run (m ∷ ms) t = run ms (move m t)
