-- ===== src/EventReceiver.antt =====
-- rm/librmcommon/baseeventreceiver.h and baseeventreceiver.cpp over basethread.h: a thread that takes
-- the events out of its queue and handles them until it is stopped. `processEvent` is a parameter: the
-- state behind an event, and whether the thread goes on. Other threads queue events and stop the thread
-- between any two of its steps.
pub mod Order
pub mod Stop
use konro.Base.{ℕ, ◌+◌, Bool, true, not, ◌||◌, Option, none, some, List, [], ◌∷◌, if◌then◌else◌}
use konro.Queue.{push, wait_and_pop_for}

-- Where the thread stands in `run`.
pub data Place : Type 0 where
  at_test at_wait at_end : Place

module _ {E S : Type 0} (process_event : E → S → S × Bool) where
  pub record EventReceiver : Type 0 where
    pub place : Place
    pub stop_flag : Bool
    pub queue : List E
    pub state : S

  unfoldable pub add_event : E → EventReceiver → EventReceiver
  unfolding push
  add_event event r = record r { queue = push event r.queue }

  -- BaseThread::stop
  unfoldable pub stop : EventReceiver → EventReceiver
  stop r = record r { stop_flag = true }

  -- The body of the loop behind `waitAndPop`.
  unfoldable pub handle : Option E × List E → EventReceiver → EventReceiver
  handle (none, queue) r = record r { queue = queue; place = at_test }
  handle (some event, queue) r =
      let (state, goes_on) = process_event event r.state in
      record r {
        queue = queue;
        state = state;
        stop_flag = not goes_on || r.stop_flag;
        place = at_test;
      }

  unfoldable pub advance : Place → EventReceiver → EventReceiver
  unfolding handle wait_and_pop_for
  advance at_test r = record r { place = if r.stop_flag then at_end else at_wait }
  advance at_wait r = handle (wait_and_pop_for r.queue) r
  advance at_end r = r

  -- What happens: an event is queued, the thread is stopped, or it takes its next step.
  pub data Move : Type 0 where
    adds : E → Move
    stops : Move
    steps : Move

  unfoldable pub move : Move → EventReceiver → EventReceiver
  unfolding add_event stop advance
  move (adds event) r = add_event event r
  move stops r = stop r
  move steps r = advance r.place r

  unfoldable pub run : List Move → EventReceiver → EventReceiver
  unfolding move
  run [] r = r
  run (m ∷ ms) r = run ms (move m r)

  abbrev pub added : List Move → List E
  added [] = []
  added (adds event ∷ ms) = event ∷ added ms
  added (stops ∷ ms) = added ms
  added (steps ∷ ms) = added ms

  -- The state behind a list of events.
  abbrev pub handled : List E → S → S
  handled [] s = s
  handled (event ∷ es) s = handled es (process_event event s).0

  -- The steps of the thread itself.
  abbrev pub steps_of : List Move → ℕ
  steps_of [] = 0
  steps_of (adds event ∷ ms) = steps_of ms
  steps_of (stops ∷ ms) = steps_of ms
  steps_of (steps ∷ ms) = steps_of ms + 1
