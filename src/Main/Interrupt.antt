-- ===== src/Main/Interrupt.antt =====
-- Ctrl-C while the listener is at work ends the process, whatever else comes.
use konro.Base.{
  ℕ, zero, suc, ◌+◌, ◌≤◌, ◌≡◌, ◌∙◌, ◌⊎◌, inl, inr, refl, sym, subst, append_assoc, Bool, true,
  false, none, some, List, [], ◌∷◌, ◌++◌, All, length, arith,
}
use konro.ProcListener.{received}
use konro.ProcListener.Datagrams.{IsNoop, forwarded, receive_loop-Meaning}
use konro.WorkloadManager.{Received}
use konro.Main.Shutdown.{
  Datagram, Place, at_start, at_create, at_setup, at_listen, at_register, in_loop, at_unregister,
  at_stop_threads, at_delete, at_return, at_exit, killed, crashed, hung, Process, stop_datagram,
  receive, after_receipt, advance, arrive, interrupt, Move, steps, arrives, interrupts, move, run,
}

-- A datagram without NOOP messages, or a failure.
abbrev pub IsPlain : Datagram → Type 0
IsPlain none = Unit {0}
IsPlain (some ms) = All (λ m. ¬ IsNoop m.msg_type) ms

-- The process goes on with the loop or leaves it.
abbrev IsReceived : Process → Process → Type 0
IsReceived p q = ((q.place ≡ p.place) ⊎ (q.place ≡ at_unregister)) × (q.inbox ≡ p.inbox)

after_receipt-IsReceived :
    (result stop : Bool) (bus : List Received) (p : Process)
    → IsReceived p (after_receipt (received result stop bus) p)
after_receipt-IsReceived false stop bus p = (inr refl, refl)
after_receipt-IsReceived true true bus p = (inr refl, refl)
after_receipt-IsReceived true false bus p = (inl refl, refl)

receive-IsReceived : (d : Datagram) (p : Process) → IsPlain d → IsReceived p (receive d p)
unfolding receive
receive-IsReceived none p h = (inr refl, refl)
receive-IsReceived (some ms) p h =
    let (result, stop, es, k, e) =
      receive_loop-Meaning (suc (length ms)) ms p.bus h (omega arith) in
    rw e (after_receipt-IsReceived result stop (forwarded es p.bus) p)

-- The process has at most n steps of its own to do, whatever comes.
abbrev Near : ℕ → Place → List Datagram → Type 0
Near n at_start ds = ⊥
Near n at_create ds = ⊥
Near n at_setup ds = ⊥
Near n at_listen ds = ⊥
Near n at_register ds = ⊥
Near n in_loop ds =
    (before : List Datagram) × (behind : List Datagram) × (ds ≡ before ++ stop_datagram ∷ behind)
    × All IsPlain before
    × (length before + 5 ≤ n)
Near n at_unregister ds = 4 ≤ n
Near n at_stop_threads ds = 3 ≤ n
Near n at_delete ds = 2 ≤ n
Near n at_return ds = 1 ≤ n
Near n at_exit ds = Unit {0}
Near n killed ds = ⊥
Near n crashed ds = ⊥
Near n hung ds = ⊥

-- A process that has just left the loop or goes on with it, the datagram before it being read.
received-Near :
    (n : ℕ) (p q : Process) (before behind : List Datagram)
    → IsReceived p q
    → p.place ≡ in_loop
    → p.inbox ≡ before ++ stop_datagram ∷ behind
    → All IsPlain before
    → length before + 5 ≤ n
    → Near n q.place q.inbox
received-Near n p q before behind (inl e, f) g h k l = rw (e, g) (before, behind, f ∙ h, k, l)
received-Near n p q before behind (inr e, f) g h k l = rw e (omega arith)

in_loop-Near :
    (answer : Bool) (n : ℕ) (p : Process)
    → p.place ≡ in_loop
    → Near (suc n) in_loop p.inbox
    → Near n (advance answer in_loop p).place (advance answer in_loop p).inbox
unfolding advance
in_loop-Near answer n p g ([], behind, e, k, l) = rw e (omega arith)
in_loop-Near answer n p g (d ∷ before, behind, e, k, l) = rw e (
    let q = record p { inbox = before ++ stop_datagram ∷ behind } in
    received-Near n q (receive d q) before behind (receive-IsReceived d q k.0) g refl k.1
      (omega arith))

advance-Near :
    (answer : Bool) (place : Place) (n : ℕ) (p : Process)
    → p.place ≡ place
    → Near (suc n) place p.inbox
    → Near n (advance answer place p).place (advance answer place p).inbox
unfolding advance
advance-Near answer in_loop n p e h = in_loop-Near answer n p e h
advance-Near answer at_unregister n p e h = omega arith
advance-Near answer at_stop_threads n p e h = omega arith
advance-Near answer at_delete n p e h = omega arith
advance-Near answer at_return n p e h = tt
advance-Near answer at_exit n p e h = rw e tt
advance-Near answer place n p e h = absurd h

arrive-Near :
    (d : Datagram) (place : Place) (n : ℕ) (p : Process)
    → p.place ≡ place
    → Near n place p.inbox
    → Near n (arrive d place p).place (arrive d place p).inbox
unfolding arrive
arrive-Near d in_loop n p e (before, behind, f, k, l) =
    rw (e, f)
      (before, behind ++ d ∷ [], append_assoc before (stop_datagram ∷ behind) (d ∷ []), k, l)
arrive-Near d at_unregister n p e h = rw e h
arrive-Near d at_stop_threads n p e h = rw e h
arrive-Near d at_delete n p e h = rw e h
arrive-Near d at_return n p e h = rw e h
arrive-Near d at_exit n p e h = rw e h
arrive-Near d place n p e h = absurd h

at_end : (place : Place) (ds : List Datagram) → Near 0 place ds → place ≡ at_exit
at_end at_exit ds h = refl
at_end in_loop ds (before, behind, e, k, l) = absurd (omega arith)
at_end at_unregister ds h = absurd (omega arith)
at_end at_stop_threads ds h = absurd (omega arith)
at_end at_delete ds h = absurd (omega arith)
at_end at_return ds h = absurd (omega arith)
at_end place ds h = absurd h

stays_at_end : (answer : Bool) (p : Process) → Near 0 p.place p.inbox → advance answer p.place p ≡ p
unfolding advance
stays_at_end answer p h = rw (at_end p.place p.inbox h) refl

-- No further interrupt.
abbrev pub IsQuiet : Move → Type 0
IsQuiet (steps answer) = Unit {0}
IsQuiet (arrives d) = Unit {0}
IsQuiet (interrupts sent) = ⊥

abbrev pub count_steps : List Move → ℕ
count_steps [] = 0
count_steps (steps answer ∷ ms) = suc (count_steps ms)
count_steps (arrives d ∷ ms) = count_steps ms
count_steps (interrupts sent ∷ ms) = count_steps ms

run-Near :
    (ms : List Move) (n : ℕ) (p : Process)
    → All IsQuiet ms
    → Near n p.place p.inbox
    → n ≤ count_steps ms
    → (run ms p).place ≡ at_exit
unfolding run move
run-Near [] zero p q h k = at_end p.place p.inbox h
run-Near [] (suc n) p q h k = absurd (omega arith)
run-Near (interrupts sent ∷ ms) n p q h k = absurd q.0
run-Near (arrives d ∷ ms) n p q h k =
    run-Near ms n (arrive d p.place p) q.1 (arrive-Near d p.place n p refl h) k
run-Near (steps answer ∷ ms) zero p q h k =
    subst (λ x. (run ms x).place ≡ at_exit) (sym (stays_at_end answer p h))
      (run-Near ms 0 p q.1 h (omega arith))
run-Near (steps answer ∷ ms) (suc n) p q h k =
    run-Near ms n (advance answer p.place p) q.1 (advance-Near answer p.place n p refl h)
      (omega arith)

interrupt-in_loop :
    (place : Place) (p : Process)
    → place ≡ in_loop
    → interrupt true place p ≡ record p { inbox = p.inbox ++ stop_datagram ∷ [] }
unfolding interrupt arrive
interrupt-in_loop place p e = rw e refl

-- A Ctrl-C whose message is sent while the listener is in its loop, where no datagram that waits for it
-- holds a NOOP message: whatever the system answers and whatever else arrives meanwhile, the process has
-- exited once the main thread has taken a step for each of the datagrams that waited, and five more, of
-- which stopping and joining the threads is one, unless Ctrl-C is pressed again.
pub run-interrupt :
    (p : Process) (ms : List Move)
    → p.place ≡ in_loop
    → All IsPlain p.inbox
    → All IsQuiet ms
    → length p.inbox + 5 ≤ count_steps ms
    → (run (interrupts true ∷ ms) p).place ≡ at_exit
unfolding run move
run-interrupt p ms e h q k =
    let r = record p { inbox = p.inbox ++ stop_datagram ∷ [] } in
    subst (λ x. (run ms x).place ≡ at_exit) (sym (interrupt-in_loop p.place p e))
      (run-Near ms (length p.inbox + 5) r q
        (subst (λ x. Near (length p.inbox + 5) x r.inbox) (sym e)
          (p.inbox, [], refl, h, omega arith))
        k)
