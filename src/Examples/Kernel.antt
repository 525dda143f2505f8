-- ===== src/Examples/Kernel.antt =====
-- The files and events of the kernel: cgroups, io.max, the process connector, /proc/stat, hwloc.
use konro.Base.{
  ℕ, ◌≡◌, ◌≢◌, ◌≤◌, ◌*◌, ◌/◌, ◌-◌, refl, ap, Bool, true, false, Option, none, some, List, [], ◌∷◌,
  inl, arith, subst, is_some, if◌then◌else◌,
}
use konro.Base.Int.{pos}
use konro.App.{App, make_app, standalone}
use konro.Cgroup.{CgroupConfig, make_path, konro_app_dir, do_not_move}
use konro.Cgroup.Controllers.{cpu_max_text, cpu_set_max, cpu_get_max}
use konro.Cgroup.Files.{cpu_get_max-cpu_set_max}
use konro.Effect.{ok}
use konro.KeyValueParser.{rbps, key_name, io_max_text, parse_line}
use konro.KeyValueParser.RoundTrip.{parse_line-io_max_text}
use konro.NumericValue.{numeric_invalid, same_text}
use konro.NumericValue.RoundTrip.{same_text_refl}
use konro.Os.{Os, done, not_opened}
use konro.PlatformDescription.{Obj, obj_other, Chain}
use konro.PlatformMonitor.{CpuTimeData, usage}
use konro.PlatformMonitor.Usage.{usage-percent}
use konro.ProcListener.{
  ProcEvent, proc_fork, proc_exec, nlmsg_noop, nlmsg_error, nlmsg_data, Message, received, running,
  receive_loop,
}
use konro.ProcListener.Datagrams.{
  Meaning, forwarded, data_before, receive_loop-noop, receive_loop-Meaning,
}
use konro.Text.{Bytes, codes}

-- A system in which no file can be written and no directory made.
abbrev pub read_only : Os
read_only = record {
  World = ℕ;
  read_lines = λ path w. (none, w);
  read_link = λ n path w. (none, w);
  list_dir = λ path w. (none, w);
  entries = λ path w. (none, w);
  file_exists = λ path w. (true, w);
  dir_exists = λ path w. (false, w);
  inode_of = λ path w. (none, w);
  write = λ path text w. (not_opened, w);
  mkdir = λ path w. (false, w);
  rmdir = λ path w. (false, w);
}

abbrev pub plain : CgroupConfig
plain = record {
  base_dir = codes "/sys/fs/cgroup";
  change_container_cgroup = false;
  change_kubernetes_cgroup = false;
}

abbrev pub shell : App
shell = make_app (pos 7) standalone

shell-moves : do_not_move read_only plain shell.app_type ≡ false
unfolding do_not_move
shell-moves = refl

-- A system with one file, which holds what was last written.
abbrev pub one_file : Os
one_file = record {
  World = Bytes;
  read_lines = λ path w. (some (w ∷ []), w);
  read_link = λ n path w. (none, w);
  list_dir = λ path w. (none, w);
  entries = λ path w. (none, w);
  file_exists = λ path w. (true, w);
  dir_exists = λ path w. (true, w);
  inode_of = λ path w. (none, w);
  write = λ path text w. (done, text);
  mkdir = λ path w. (true, w);
  rmdir = λ path w. (true, w);
}

-- The text that was last written to a path.
abbrev pub Files : Type 0
Files = List (Bytes × Bytes)

abbrev pub content : Bytes → Files → Option (List Bytes)
content path [] = none
content path ((p, text) ∷ w) = if same_text p path then some (text ∷ []) else content path w

-- A system whose files hold what was last written to them.
abbrev pub by_path : Os
by_path = record {
  World = Files;
  read_lines = λ path w. (content path w, w);
  read_link = λ n path w. (none, w);
  list_dir = λ path w. (none, w);
  entries = λ path w. (none, w);
  file_exists = λ path w. (is_some (content path w), w);
  dir_exists = λ path w. (true, w);
  inode_of = λ path w. (none, w);
  write = λ path text w. (done, (path, text) ∷ w);
  mkdir = λ path w. (true, w);
  rmdir = λ path w. (true, w);
}

content-written :
    (path text : Bytes) (w : Files) → content path ((path, text) ∷ w) ≡ some (text ∷ [])
content-written path text w = rw (same_text_refl path) refl

pub by_path_read :
    (path text : Bytes) (w v : Files)
    → by_path.write path text w ≡ (done, v)
    → by_path.read_lines path v ≡ (some (text ∷ []), v)
by_path_read path text w v h =
    subst (λ x. by_path.read_lines path x ≡ (some (text ∷ []), x)) (ap (λ x. x.1) h)
      (ap (λ x. (x, (path, text) ∷ w)) (content-written path text w))

by_path_exists :
    (path text : Bytes) (w v : Files)
    → by_path.write path text w ≡ (done, v)
    → by_path.file_exists path v ≡ (true, v)
by_path_exists path text w v h =
    subst (λ x. by_path.file_exists path x ≡ (true, x)) (ap (λ x. x.1) h)
      (ap (λ x. (is_some x, (path, text) ∷ w)) (content-written path text w))

abbrev cpu_max_path : Bytes
cpu_max_path = make_path (konro_app_dir by_path plain (pos 7)) (codes "cpu.max")

-- The files behind setMax, with those in which the controllers were activated.
abbrev after_set_max : Files
after_set_max = (cpu_set_max by_path plain 85 shell []).1

by_path-set_max : cpu_set_max by_path plain 85 shell [] ≡ (ok tt, after_set_max)
unfolding cpu_set_max
by_path-set_max = refl

cpu_get_max-cpu_set_max_example :
    cpu_get_max by_path plain shell after_set_max ≡ (ok 85, after_set_max)
unfolding do_not_move
cpu_get_max-cpu_set_max_example =
    cpu_get_max-cpu_set_max by_path plain shell refl 85 [] after_set_max (λ w h. absurd cc)
      (λ w v h. (
        by_path_read cpu_max_path (cpu_max_text 85) w v h,
        by_path_exists cpu_max_path (cpu_max_text 85) w v h,
      ))
      (inl (omega arith)) by_path-set_max

not_invalid : 1048576 ≢ numeric_invalid
not_invalid h = omega arith

parse_line-io_max_text_example :
    parse_line (pos 8) (pos 16) (io_max_text (pos 8) (pos 16) rbps 1048576)
    ≡ some ((key_name rbps, 1048576) ∷ [])
parse_line-io_max_text_example =
    parse_line-io_max_text 8 16 rbps 1048576 (omega arith) (omega arith) (omega arith) not_invalid

abbrev pub two_messages : List Message
two_messages =
    record { msg_type = nlmsg_data; event = proc_fork (pos 7) (pos 8) }
    ∷ record { msg_type = nlmsg_error; event = proc_exec (pos 8) }
    ∷ []

receive_loop-Meaning_example :
    (result : Bool) × (stop : Bool) × (es : List ProcEvent) × Meaning two_messages result stop es
    × (receive_loop 3 two_messages false [] ≡ received result stop (forwarded es []))
receive_loop-Meaning_example =
    receive_loop-Meaning 3 two_messages [] (λ h. h, (λ h. h, tt)) (omega arith)

receive_loop-noop_example :
    receive_loop 100
      (data_before
        (proc_exec (pos 8) ∷ [])
        (record { msg_type = nlmsg_noop; event = proc_exec (pos 9) } ∷ []))
      false
      []
    ≡ running
receive_loop-noop_example = receive_loop-noop 100 (proc_exec (pos 8) ∷ []) (proc_exec (pos 9)) [] []

-- The times of a unit that are looked at: all of them, and the idle ones.
abbrev pub times : ℕ → ℕ → CpuTimeData
times total idle = record {
  name = codes "cpu0";
  usertime = total - idle;
  nicetime = 0;
  systemtime = 0;
  idletime = idle;
  io_wait = 0;
  irq = 0;
  soft_irq = 0;
  steal = 0;
  guest = 0;
  guestnice = 0;
  totaltime = total;
}

usage-percent_example :
    (usage (times 1050 830) (times 950 800) ≡ some (pos ((100 - 30) * 100 / 100)))
    × ((100 - 30) * 100 / 100 ≤ 100)
usage-percent_example =
    usage-percent (times 1050 830) (times 950 800) (omega arith) (omega arith) (omega arith)
      (omega arith) (omega arith) (omega arith)

-- Two cores of two units each, below one machine.
abbrev pub object : ℕ → Obj
object n = record { address = n; obj_type = obj_other; os_index = pos n; logical_index = pos n }

abbrev pub unit : ℕ → ℕ → Chain
unit n core = object n ∷ object core ∷ object 100 ∷ []
