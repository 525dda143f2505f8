-- ===== src/Queue.antt =====
-- rm/librmcommon/threadsafequeue.h. Every method holds the mutex while it runs, so the threads'
-- calls form one sequence of whole calls. The queue is the list of its values, oldest first.
use konro.Base.{
  ◌≡◌, ◌∙◌, sym, ap, Bool, true, false, Option, none, some, List, [], ◌∷◌, ◌++◌, append_assoc,
  append-nil,
}

module _ {ℓ} {A : Type ℓ} where
  unfoldable pub push : A → List A → List A
  push new_value queue = queue ++ new_value ∷ []

  -- `tryPop`: the value, if there is one, and the queue.
  unfoldable pub try_pop : List A → Option A × List A
  try_pop [] = (none, [])
  try_pop (value ∷ queue) = (some value, queue)

  -- `waitAndPop` with a time limit, as it returns: with the oldest value, or at the limit without one;
  -- a value that is there is taken without waiting.
  unfoldable pub wait_and_pop_for : List A → Option A × List A
  wait_and_pop_for [] = (none, [])
  wait_and_pop_for (value ∷ queue) = (some value, queue)

  -- `waitAndPop` without one, each time that it looks at the queue: without a value it goes on waiting.
  unfoldable pub wait_and_pop : List A → Option A × List A
  wait_and_pop [] = (none, [])
  wait_and_pop (value ∷ queue) = (some value, queue)

  unfoldable pub is_empty : List A → Bool
  is_empty [] = true
  is_empty (value ∷ queue) = false

-- A call of a thread.
pub data Call {ℓ} (A : Type ℓ) : Type ℓ where
  pushes : A → Call A
  pops : Call A
  waits : Call A
  awaits : Call A
  asks : Call A

module _ {ℓ} {A : Type ℓ} where
  -- The values that a sequence of calls takes out, in order, and the queue that it leaves.
  took : Option A × List A → List A × List A → List A × List A
  took (none, q) (taken, rest) = (taken, rest)
  took (some a, q) (taken, rest) = (a ∷ taken, rest)

  pub history : List (Call A) → List A → List A × List A
  history [] queue = ([], queue)
  history (pushes a ∷ calls) queue = history calls (push a queue)
  history (pops ∷ calls) queue = took (try_pop queue) (history calls (try_pop queue).1)
  history (waits ∷ calls) queue =
      took (wait_and_pop_for queue) (history calls (wait_and_pop_for queue).1)
  history (awaits ∷ calls) queue = took (wait_and_pop queue) (history calls (wait_and_pop queue).1)
  history (asks ∷ calls) queue = history calls queue

  pub pushed : List (Call A) → List A
  pushed [] = []
  pushed (pushes a ∷ calls) = a ∷ pushed calls
  pushed (pops ∷ calls) = pushed calls
  pushed (waits ∷ calls) = pushed calls
  pushed (awaits ∷ calls) = pushed calls
  pushed (asks ∷ calls) = pushed calls

  -- Whatever the interleaving of the threads' calls, the values taken out, followed by those still
  -- queued, are the values queued at first, followed by those pushed: none is lost, doubled or
  -- overtaken.
  pub history_fifo :
      (calls : List (Call A)) (queue : List A)
      → (history calls queue).0 ++ (history calls queue).1 ≡ queue ++ pushed calls
  unfolding history pushed took push try_pop wait_and_pop_for wait_and_pop
  history_fifo [] queue = sym (append-nil queue)
  history_fifo (pushes a ∷ calls) queue =
      history_fifo calls (queue ++ a ∷ []) ∙ append_assoc queue (a ∷ []) (pushed calls)
  history_fifo (pops ∷ calls) [] = history_fifo calls []
  history_fifo (pops ∷ calls) (a ∷ queue) = ap (◌∷◌ a) (history_fifo calls queue)
  history_fifo (waits ∷ calls) [] = history_fifo calls []
  history_fifo (waits ∷ calls) (a ∷ queue) = ap (◌∷◌ a) (history_fifo calls queue)
  history_fifo (awaits ∷ calls) [] = history_fifo calls []
  history_fifo (awaits ∷ calls) (a ∷ queue) = ap (◌∷◌ a) (history_fifo calls queue)
  history_fifo (asks ∷ calls) queue = history_fifo calls queue
