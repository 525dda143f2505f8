-- ===== src/ProcListener.antt =====
-- rm/workloadmanager/proclistener.cpp: the events of the kernel's process connector. The macros of
-- the netlink headers and the layout of proc_event belong to the kernel: a datagram is the list of
-- the messages that NLMSG_OK and NLMSG_NEXT find in it, and the system calls are parameters.
pub mod Datagrams
use konro.Base.{
  ℕ, zero, suc, Bool, true, false, Option, none, some, List, [], ◌∷◌, ◌++◌, ◌==◌, if◌then◌else◌,
}
use konro.Base.Int.{ℤ, pos, ◌+ℤ◌}
use konro.Effect.{M, Exit, ok, exception, continue, ◌>>=◌, ◌>>◌, pure}
use konro.Os.{call}
use konro.WorkloadManager.{Received, fork, exec, exit}

-- What a proc_event tells: a fork with the parent and the child, an exec, an exit, or another event.
pub data ProcEvent : Type 0 where
  proc_fork : ℤ → ℤ → ProcEvent
  proc_exec : ℤ → ProcEvent
  proc_exit : ℤ → ProcEvent
  proc_other : ProcEvent

-- `nlmsg_type`
pub data MessageType : Type 0 where
  nlmsg_noop nlmsg_error nlmsg_overrun nlmsg_stop nlmsg_done nlmsg_data : MessageType

pub record Message : Type 0 where
  pub msg_type : MessageType
  pub event : ProcEvent

unfoldable pub forward_event : ProcEvent → List Received → List Received
forward_event (proc_fork parent child) bus = bus ++ fork parent child ∷ []
forward_event (proc_exec pid) bus = bus ++ exec pid ∷ []
forward_event (proc_exit pid) bus = bus ++ exit pid ∷ []
forward_event proc_other bus = bus

-- How `receiveConnectorNetlinkMessage` ends: with its result, the flag `stop_` and what was
-- published. `running` is a loop that has not ended.
pub data Receipt : Type 0 where
  received : Bool → Bool → List Received → Receipt
  running : Receipt

-- The loop over the messages, on fuel. At a NOOP, `continue` goes on with the same message.
unfoldable pub receive_loop : ℕ → List Message → Bool → List Received → Receipt
unfolding forward_event
receive_loop zero ms stop bus = running
receive_loop (suc f) [] stop bus = received true stop bus
receive_loop (suc f) (m ∷ ms) stop bus = elim m.msg_type [
  | nlmsg_noop ↦ receive_loop f (m ∷ ms) stop bus
  | nlmsg_error ↦ received false stop bus
  | nlmsg_overrun ↦ received false stop bus
  | nlmsg_stop ↦ received true true bus
  | nlmsg_done ↦ received true stop (forward_event m.event bus)
  | nlmsg_data ↦ receive_loop f ms stop (forward_event m.event bus)
]

-- The datagram that recvfrom returned, `none` where it failed or returned nothing.
unfoldable pub receive_message : ℕ → Option (List Message) → Bool → List Received → Receipt
unfolding receive_loop
receive_message f none stop bus = received false stop bus
receive_message f (some ms) stop bus = receive_loop f ms stop bus

pub data MessageData : Type 0 where
  listens ignores stops : MessageData

-- A message that is sent: to the thread or process of an address, and to a group.
pub record Outgoing : Type 0 where
  pub dst_pid : ℤ
  pub groups : ℕ
  pub header_pid : ℤ
  pub msg_type : MessageType
  pub op : MessageData

abbrev pub kernel_pid : ℤ
kernel_pid = pos 0

abbrev pub cn_idx_proc : ℕ
cn_idx_proc = 1

-- The calls of the system: the thread's id, the size of a message with its headers, and the sockets;
-- `recvfrom` is `none` where it fails or returns nothing, and waits otherwise until a datagram is there.
pub record Netlink : Type 1 where
  pub World : Type 0
  pub gettid : ℤ
  pub nlmsg_size : ℕ
  pub socket : World → Bool × World
  pub bind : ℤ → ℕ → World → Bool × World
  pub sendmsg : Outgoing → World → Option ℕ × World
  pub recvfrom : World → Option (List Message) × World
  pub close : World → Unit {0} × World

module _ (nl : Netlink) where
  -- Whether all bytes were sent.
  unfoldable pub send_netlink_message : Outgoing → nl.World → Bool × nl.World
  send_netlink_message m w =
      let r = nl.sendmsg m w in
      (elim r.0 [ none ↦ false | some nsent ↦ nsent == nl.nlmsg_size ], r.1)

  unfoldable pub send_to_kernel : MessageData → nl.World → Bool × nl.World
  unfolding send_netlink_message
  send_to_kernel op = send_netlink_message (record {
    dst_pid = kernel_pid;
    groups = cn_idx_proc;
    header_pid = nl.gettid;
    msg_type = nlmsg_done;
    op = op;
  })

  unfoldable pub send_to_thread : MessageData → nl.World → Bool × nl.World
  unfolding send_netlink_message
  send_to_thread op = send_netlink_message (record {
    dst_pid = pos 0;
    groups = cn_idx_proc;
    header_pid = kernel_pid +ℤ pos 1;
    msg_type = nlmsg_stop;
    op = op;
  })

  -- The main loop of `run`, for at most so many datagrams: whether it has ended, by a stop message or a
  -- failure, and what was published.
  unfoldable pub main_loop : ℕ → ℕ → List Received → nl.World → (Bool × List Received) × nl.World
  unfolding receive_message
  main_loop fuel zero bus w = ((false, bus), w)
  main_loop fuel (suc n) bus w =
      let d = nl.recvfrom w in
      elim (receive_message fuel d.0 false bus) [
        | running ↦ ((false, bus), d.1)
        | received false stop bus' ↦ ((true, bus'), d.1)
        | received true true bus' ↦ ((true, bus'), d.1)
        | received true false bus' ↦ main_loop fuel n bus' d.1
      ]

  -- The end of `run`, which does not close the socket.
  unfoldable pub unregister : Bool × List Received → M nl.World (Bool × List Received)
  unfolding send_to_kernel
  unregister (false, bus) = pure (false, bus)
  unregister (true, bus) = do sent ← call (send_to_kernel ignores); pure (true, bus)

  abbrev pub give_up : M nl.World (Bool × List Received)
  give_up = do call nl.close; pure (true, [])

  unfoldable pub registered : ℕ → ℕ → M nl.World (Bool × List Received)
  unfolding main_loop unregister send_to_kernel
  registered fuel n = do
    sent ← call (send_to_kernel listens)
    (if sent then (do r ← call (main_loop fuel n []); unregister r) else give_up)

  -- Whether `run` has ended, and what it has published.
  unfoldable pub run : ℕ → ℕ → M nl.World (Bool × List Received)
  unfolding registered
  run fuel n = do
    made ← call nl.socket
    (if made
        then (do
          bound ← call (nl.bind nl.gettid cn_idx_proc)
          (if bound then registered fuel n else give_up))
        else pure (true, []))

  -- Whether the stop message was sent; the socket is never closed.
  unfoldable pub stop : nl.World → Bool × nl.World
  unfolding send_to_thread
  stop w = let s = nl.socket w in if s.0 then send_to_thread stops s.1 else (false, s.1)
