-- ===== src/Main/Shutdown.antt =====
-- The main thread from rm/src/main.cpp through KonroManager::run of rm/src/konromanager.cpp and
-- ProcListener::run of rm/workloadmanager/proclistener.cpp, step by step, and the handler of Ctrl-C, which
-- runs between any two steps. A datagram for the group of the process connector reaches a socket that is
-- bound to it and no other.
use konro.Base.{
  ℕ, suc, Bool, true, false, Option, none, some, List, [], ◌∷◌, ◌++◌, length, if◌then◌else◌,
}
use konro.ProcListener.{
  Message, nlmsg_stop, proc_other, Receipt, received, running, receive_message,
}
use konro.WorkloadManager.{Received}

-- What `recvfrom` returns.
abbrev pub Datagram : Type 0
Datagram = Option (List Message)

-- Where the main thread stands. Before `at_create` the handler is not installed; before `at_setup`
-- konroManager is null, and before `at_listen` its procListener; before `at_register` the socket of the
-- listener is not bound. After `at_delete` konroManager is deleted.
pub data Place : Type 0 where
  at_start at_create at_setup at_listen at_register in_loop : Place
  at_unregister at_stop_threads at_delete at_return at_exit : Place
  -- ended by the signal, undefined behaviour, and a loop without an end
  killed crashed hung : Place

pub record Process : Type 0 where
  pub place : Place
  pub inbox : List Datagram
  pub bus : List Received

-- The message of ProcListener::stop.
abbrev pub stop_datagram : Datagram
stop_datagram = some (record { msg_type = nlmsg_stop; event = proc_other } ∷ [])

-- A round for each message, and one for the end.
abbrev pub rounds : Datagram → ℕ
rounds none = 0
rounds (some ms) = suc (length ms)

-- What the main loop of ProcListener::run does after a datagram.
abbrev pub after_receipt : Receipt → Process → Process
after_receipt running p = record p { place = hung }
after_receipt (received false stop bus) p = record p { place = at_unregister; bus = bus }
after_receipt (received true true bus) p = record p { place = at_unregister; bus = bus }
after_receipt (received true false bus) p = record p { bus = bus }

unfoldable pub receive : Datagram → Process → Process
unfolding receive_message
receive d p = after_receipt (receive_message (rounds d) d false p.bus) p

-- Without a datagram the thread waits.
unfoldable pub receive_next : List Datagram → Process → Process
unfolding receive
receive_next [] p = p
receive_next (d ∷ ds) p = receive d (record p { inbox = ds })

-- A step of the main thread; the Boolean value is the answer of the system to the calls in it.
unfoldable pub advance : Bool → Place → Process → Process
unfolding receive_next
advance answer at_start p = record p { place = at_create }
advance answer at_create p = record p { place = at_setup }
advance answer at_setup p = record p { place = at_listen }
advance answer at_listen p = record p { place = if answer then at_register else at_stop_threads }
advance answer at_register p = record p { place = if answer then in_loop else at_stop_threads }
advance answer in_loop p = receive_next p.inbox p
advance answer at_unregister p = record p { place = at_stop_threads }
advance answer at_stop_threads p = record p { place = at_delete }
advance answer at_delete p = record p { place = at_return }
advance answer at_return p = record p { place = at_exit }
advance answer at_exit p = p
advance answer killed p = p
advance answer crashed p = p
advance answer hung p = p

-- A datagram comes for the group.
unfoldable pub arrive : Datagram → Place → Process → Process
arrive d at_register p = record p { inbox = p.inbox ++ d ∷ [] }
arrive d in_loop p = record p { inbox = p.inbox ++ d ∷ [] }
arrive d place p = p

-- ctrlCHandler; the Boolean value is whether the message could be sent.
unfoldable pub interrupt : Bool → Place → Process → Process
unfolding arrive
interrupt sent at_start p = record p { place = killed }
interrupt sent at_create p = record p { place = crashed }
interrupt sent at_setup p = record p { place = crashed }
interrupt sent at_return p = record p { place = crashed }
interrupt sent place p = if sent then arrive stop_datagram place p else p

pub data Move : Type 0 where
  steps : Bool → Move
  arrives : Datagram → Move
  interrupts : Bool → Move

unfoldable pub move : Move → Process → Process
unfolding advance arrive interrupt
move (steps answer) p = advance answer p.place p
move (arrives d) p = arrive d p.place p
move (interrupts sent) p = interrupt sent p.place p

unfoldable pub run : List Move → Process → Process
unfolding move
run [] p = p
run (m ∷ ms) p = run ms (move m p)
