-- ===== src/Examples/Shutdown.antt =====
-- Ctrl-C at a process whose listener has a fork and a failed call waiting for it.
use konro.Base.{◌≡◌, refl, true, some, List, [], ◌∷◌, arith}
use konro.Base.Int.{pos}
use konro.Main.Shutdown.{
  at_start, at_listen, at_return, crashed, in_loop, at_exit, Process, Move, steps, arrives,
  interrupts, run,
}
use konro.Main.Interrupt.{run-interrupt}
use konro.ProcListener.{proc_fork, proc_exit, nlmsg_noop, nlmsg_done}

abbrev listening : Process
listening = record {
  place = in_loop;
  inbox = some (record { msg_type = nlmsg_done; event = proc_fork (pos 1) (pos 2) } ∷ []) ∷ [];
  bus = [];
}

-- A datagram with a NOOP message comes behind the stop message.
abbrev shutdown : List Move
shutdown =
    arrives (some (record { msg_type = nlmsg_noop; event = proc_exit (pos 1) } ∷ []))
    ∷ steps true
    ∷ steps true
    ∷ steps true
    ∷ steps true
    ∷ steps true
    ∷ steps true
    ∷ []

run-interrupt_example : (run (interrupts true ∷ shutdown) listening).place ≡ at_exit
run-interrupt_example =
    run-interrupt listening shutdown refl (((λ noop. noop), tt), tt)
      (tt, (tt, (tt, (tt, (tt, (tt, (tt, tt))))))) (omega arith)

abbrev starting : Process
starting = record { place = at_start; inbox = []; bus = [] }

-- Ctrl-C once the handler is installed and before konroManager is created, and between its deletion and
-- the end of the process, uses an object that is not there.
early_interrupt : (run (steps true ∷ interrupts true ∷ []) starting).place ≡ crashed
unfolding run
early_interrupt = refl

late_interrupt :
    (run (interrupts true ∷ []) (record { place = at_return; inbox = []; bus = [] })).place
    ≡ crashed
unfolding run
late_interrupt = refl

-- Before the socket of the listener is bound the message is lost.
lost_interrupt :
    run (interrupts true ∷ []) (record { place = at_listen; inbox = []; bus = [] })
    ≡ record { place = at_listen; inbox = []; bus = [] }
unfolding run
lost_interrupt = refl
