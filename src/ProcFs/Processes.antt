-- ===== src/ProcFs/Processes.antt =====
-- rm/securitymonitor/securitymonitor.cpp: the reads of /proc and of the cgroup, process by process.
use konro.Base.{
  ℕ, Bool, true, false, Option, none, some, List, [], ◌∷◌, ◌++◌, ◌==◌, ltb, if◌then◌else◌,
}
use konro.Base.Int.{ℤ, pos, ltb_ℤ, to_int}
use konro.App.{App}
use konro.Cgroup.{CgroupConfig, drop, lookup, get_line, get_content, get_content_as_map}
use konro.Effect.{M, continue, ◌>>=◌, pure}
use konro.Os.{Os, call}
use konro.Streams.{strtoul, strtol}
use konro.Text.{Bytes, codes, print_ℤ}
use konro.ProcFs.{
  PidSample, Connections, no_connections, starttime_of, socket_inode, assign_inode, connection_rows,
  rows, index_of_inode, packet_inode, tx_rows, or_missing, or_zero,
}

module _ (os : Os) where
  unfoldable pub get_process_starttime : ℤ → os.World → ℕ × os.World
  unfolding starttime_of print_ℤ
  get_process_starttime pid w =
      let r = os.read_lines (codes "/proc/" ++ print_ℤ pid ++ codes "/stat") w in
      (starttime_of r.0, r.1)

  unfoldable pub verify_starttime : ℤ → ℕ → os.World → Bool × os.World
  unfolding get_process_starttime
  verify_starttime pid expected w =
      let r = get_process_starttime pid w in
      if expected == 0 then (true, w) else (r.0 == expected, r.1)

  -- The positive pids of the lines, each with its start time.
  unfoldable pub sample_pids : List Bytes → os.World → List PidSample × os.World
  unfolding strtol get_process_starttime
  sample_pids [] w = ([], w)
  sample_pids (line ∷ lines) w =
      let pid = to_int (strtol line) in
      let r = if ltb_ℤ (pos 0) pid then get_process_starttime pid w else (0, w) in
      let rest = sample_pids lines r.1 in
      if ltb_ℤ (pos 0) pid then (record { pid = pid; starttime = r.0 } ∷ rest.0, rest.1) else rest

  unfoldable pub get_cgroup_pids : CgroupConfig → App → M os.World (List PidSample)
  unfolding get_content sample_pids
  get_cgroup_pids config app = do
    lines ← get_content os config (codes "pids") (codes "cgroup.procs") app
    call (sample_pids lines)

  -- The loop over the entries of /proc/<pid>/fd.
  unfoldable pub fd_inodes :
      Bytes → ℤ → List Bytes → List (ℕ × ℤ) → os.World → List (ℕ × ℤ) × os.World
  unfolding socket_inode assign_inode
  fd_inodes dir pid [] result w = (result, w)
  fd_inodes dir pid (name ∷ names) result w =
      let r = os.read_link 127 (dir ++ b'/' ∷ name) w in
      let inode : ℕ = elim r.0 [ none ↦ 0 | some target ↦ socket_inode target ] in
      fd_inodes dir pid names (if ltb 0 inode then assign_inode inode pid result else result) r.1

  -- A directory that cannot be opened has no entries.
  abbrev pub names_of : Option (List Bytes) → List Bytes
  names_of none = []
  names_of (some names) = names

  unfoldable pub pid_inodes : PidSample → List (ℕ × ℤ) → os.World → List (ℕ × ℤ) × os.World
  unfolding verify_starttime fd_inodes print_ℤ
  pid_inodes s result w =
      let r = verify_starttime s.pid s.starttime w in
      let dir = codes "/proc/" ++ print_ℤ s.pid ++ codes "/fd" in
      let d = os.list_dir dir r.1 in
      if r.0 then fd_inodes dir s.pid (names_of d.0) result d.1 else (result, r.1)

  unfoldable pub socket_inode_to_pid :
      List PidSample → List (ℕ × ℤ) → os.World → List (ℕ × ℤ) × os.World
  unfolding pid_inodes
  socket_inode_to_pid [] result w = (result, w)
  socket_inode_to_pid (s ∷ ss) result w =
      let r = pid_inodes s result w in socket_inode_to_pid ss r.0 r.1

  -- The directory of the network tables; `none` where the pid was recycled.
  unfoldable pub netns_base : PidSample → os.World → Option Bytes × os.World
  unfolding verify_starttime print_ℤ
  netns_base s w =
      let r = verify_starttime s.pid s.starttime w in
      if ltb_ℤ (pos 0) s.pid
      then ((if r.0 then some (codes "/proc/" ++ print_ℤ s.pid ++ codes "/net/") else none), r.1)
      else (some (codes "/proc/net/"), w)

  unfoldable pub count_tables : List ℕ → Bytes → os.World → Connections × os.World
  unfolding connection_rows
  count_tables inodes base w =
      let t = os.read_lines (base ++ codes "tcp") w in
      let u = os.read_lines (base ++ codes "tcp6") t.1 in
      (connection_rows inodes (rows u.0) (connection_rows inodes (rows t.0) no_connections), u.1)

  unfoldable pub count_connections : List ℕ → PidSample → os.World → Connections × os.World
  unfolding netns_base count_tables
  count_connections inodes netns w =
      let b = netns_base netns w in
      elim b.0 [ none ↦ (no_connections, b.1) | some base ↦ count_tables inodes base b.1 ]

  -- A table is read only where those before it hold none of the inodes.
  unfoldable pub raw_tables : List ℕ → Bytes → os.World → Bool × os.World
  unfolding index_of_inode packet_inode
  raw_tables inodes base w =
      let r = os.read_lines (base ++ codes "raw") w in
      let s = os.read_lines (base ++ codes "raw6") r.1 in
      let p = os.read_lines (base ++ codes "packet") s.1 in
      if index_of_inode inodes 9 (rows r.0)
      then (true, r.1)
      else if index_of_inode inodes 9 (rows s.0)
      then (true, s.1)
      else (packet_inode inodes (rows p.0), p.1)

  unfoldable pub has_raw_sockets : List ℕ → PidSample → os.World → Bool × os.World
  unfolding netns_base raw_tables
  has_raw_sockets [] netns w = (false, w)
  has_raw_sockets (i ∷ is) netns w =
      let b = netns_base netns w in
      elim b.0 [ none ↦ (false, b.1) | some base ↦ raw_tables (i ∷ is) base b.1 ]

  -- PATH_MAX - 1 bytes of the link at most; the empty path where there is none.
  unfoldable pub get_process_exe : PidSample → os.World → Bytes × os.World
  unfolding verify_starttime print_ℤ
  get_process_exe s w =
      let r = verify_starttime s.pid s.starttime w in
      let l = os.read_link 4095 (codes "/proc/" ++ print_ℤ s.pid ++ codes "/exe") r.1 in
      if r.0 then (elim l.0 [ none ↦ [] | some path ↦ path ], l.1) else ([], r.1)

  unfoldable pub get_process_exes : List PidSample → os.World → List Bytes × os.World
  unfolding get_process_exe
  get_process_exes [] w = ([], w)
  get_process_exes (s ∷ ss) w =
      let e = get_process_exe s w in let rest = get_process_exes ss e.1 in (e.0 ∷ rest.0, rest.1)

  unfoldable pub get_tx_bytes : PidSample → os.World → ℕ × os.World
  unfolding netns_base tx_rows
  get_tx_bytes netns w =
      let b = netns_base netns w in
      elim b.0 [
        | none ↦ (0, b.1)
        | some base ↦
            let r = os.read_lines (base ++ codes "dev") b.1 in (tx_rows (drop 1 (rows r.0)) 0, r.1)
      ]

  unfoldable pub get_cpu_usec : CgroupConfig → App → M os.World ℕ
  unfolding get_content_as_map lookup
  get_cpu_usec config app w = or_zero (
      continue (get_content_as_map os config (codes "cpu") (codes "cpu.stat") app w)
        (λ stat. pure (or_missing (lookup (codes "usage_usec") stat))))

  unfoldable pub get_mem_current : CgroupConfig → App → M os.World ℕ
  unfolding get_line strtoul
  get_mem_current config app w = or_zero (
      continue (get_line os config (codes "memory") (codes "memory.current") app w)
        (λ value. pure (strtoul value)))
