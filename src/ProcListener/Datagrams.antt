-- ===== src/ProcListener/Datagrams.antt =====
-- Which events of a datagram are published, and when the loop over its messages ends.
use konro.Base.{ℕ, zero, suc, ◌<◌, ◌≡◌, refl, Bool, true, false, List, [], ◌∷◌, All, length, arith}
use konro.ProcListener.{
  ProcEvent, MessageType, nlmsg_noop, nlmsg_error, nlmsg_overrun, nlmsg_stop, nlmsg_done,
  nlmsg_data, Message, forward_event, received, running, receive_loop,
}
use konro.WorkloadManager.{Received}

-- A datagram by what its messages mean: its end, a final message, a failure or a stop behind others.
pub data Meaning : List Message → Bool → Bool → List ProcEvent → Type 0 where
  all_read : Meaning [] true false []
  last_read :
      (e : ProcEvent) (ms : List Message)
      → Meaning (record { msg_type = nlmsg_done; event = e } ∷ ms) true false (e ∷ [])
  failed :
      (e : ProcEvent) (ms : List Message)
      → Meaning (record { msg_type = nlmsg_error; event = e } ∷ ms) false false []
  overran :
      (e : ProcEvent) (ms : List Message)
      → Meaning (record { msg_type = nlmsg_overrun; event = e } ∷ ms) false false []
  stopped :
      (e : ProcEvent) (ms : List Message)
      → Meaning (record { msg_type = nlmsg_stop; event = e } ∷ ms) true true []
  one_read :
      {ms : List Message} {result stop : Bool} {es : List ProcEvent} (e : ProcEvent)
      → Meaning ms result stop es
      → Meaning (record { msg_type = nlmsg_data; event = e } ∷ ms) result stop (e ∷ es)

pub forwarded : List ProcEvent → List Received → List Received
forwarded [] bus = bus
forwarded (e ∷ es) bus = forwarded es (forward_event e bus)

-- The events as messages of data before the others.
pub data_before : List ProcEvent → List Message → List Message
data_before [] ms = ms
data_before (e ∷ es) ms = record { msg_type = nlmsg_data; event = e } ∷ data_before es ms

-- A NOOP message, wherever messages of data stand before it, keeps the loop from ending: no number of
-- rounds is enough.
pub receive_loop-noop :
    (f : ℕ) (es : List ProcEvent) (e : ProcEvent) (ms : List Message) (bus : List Received)
    → receive_loop f (data_before es (record { msg_type = nlmsg_noop; event = e } ∷ ms)) false bus
      ≡ running
unfolding receive_loop data_before
receive_loop-noop zero es e ms bus = refl
receive_loop-noop (suc f) [] e ms bus = receive_loop-noop f [] e ms bus
receive_loop-noop (suc f) (d ∷ es) e ms bus = receive_loop-noop f es e ms (forward_event d bus)

abbrev pub IsNoop : MessageType → Type 0
IsNoop nlmsg_noop = Unit {0}
IsNoop nlmsg_error = ⊥
IsNoop nlmsg_overrun = ⊥
IsNoop nlmsg_stop = ⊥
IsNoop nlmsg_done = ⊥
IsNoop nlmsg_data = ⊥

-- What a datagram comes to: one with a meaning, and what the loop makes of it.
abbrev IsRead : ℕ → List Message → List Received → Type 0
IsRead f ms bus =
    (result : Bool) × (stop : Bool) × (es : List ProcEvent) × Meaning ms result stop es
    × (receive_loop f ms false bus ≡ received result stop (forwarded es bus))

first_lem :
    (f : ℕ) (m : Message) (ms : List Message) (bus : List Received)
    → ¬ IsNoop m.msg_type
    → IsRead f ms (forward_event m.event bus)
    → IsRead (suc f) (m ∷ ms) bus
unfolding receive_loop forwarded
first_lem f m ms bus n (r, s, es, k, q) =
    elim m.msg_type
        as (λ t. ¬ IsNoop t → IsRead (suc f) (record { msg_type = t; event = m.event } ∷ ms) bus) [
          | nlmsg_noop ↦ λ n. absurd (n tt)
          | nlmsg_error ↦ λ n. (false, false, [], failed m.event ms, refl)
          | nlmsg_overrun ↦ λ n. (false, false, [], overran m.event ms, refl)
          | nlmsg_stop ↦ λ n. (true, true, [], stopped m.event ms, refl)
          | nlmsg_done ↦ λ n. (true, false, m.event ∷ [], last_read m.event ms, refl)
          | nlmsg_data ↦ λ n. (r, s, m.event ∷ es, one_read m.event k, q)
        ]
      n

-- A datagram without NOOP messages is read to its end, to its final message, or to the first error or
-- stop message, in at most one round more than it has messages, and exactly the events before are
-- forwarded, in their order.
pub receive_loop-Meaning :
    (f : ℕ) (ms : List Message) (bus : List Received)
    → All (λ m. ¬ IsNoop m.msg_type) ms
    → length ms < f
    → (result : Bool) × (stop : Bool) × (es : List ProcEvent) × Meaning ms result stop es
      × (receive_loop f ms false bus ≡ received result stop (forwarded es bus))
unfolding receive_loop forwarded
receive_loop-Meaning zero ms bus n h = absurd (omega arith)
receive_loop-Meaning (suc f) [] bus n h = (true, false, [], all_read, refl)
receive_loop-Meaning (suc f) (m ∷ ms) bus n h =
    let rest = receive_loop-Meaning f ms (forward_event m.event bus) n.1 (omega arith) in
    first_lem f m ms bus n.0 rest
