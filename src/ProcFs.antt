-- ===== src/ProcFs.antt =====
-- rm/securitymonitor/securitymonitor.cpp: what the security monitor takes from the texts of /proc, and,
-- in Processes, its reads. The kernel's numbers fit the code's types: counts of connections are below
-- 2 ^ 31.
pub mod Processes
use konro.Base.{
  ℕ, zero, suc, ◌+◌, ◌%◌, ◌^◌, Bool, true, false, ◌&&◌, Option, none, some, List, [], ◌∷◌, ◌++◌,
  ◌==◌, ltb, if◌then◌else◌,
}
use konro.Base.Int.{ℤ, pos, ltb_ℤ, to_int}
use konro.App.{App}
use konro.Cgroup.{CgroupConfig, first_line, drop, lookup, get_line, get_content, get_content_as_map}
use konro.Effect.{M, Exit, ok, exception, undefined, continue, ◌>>=◌, pure}
use konro.NumericValue.{same_text}
use konro.Os.{Os, call}
use konro.Streams.{
  is_empty, nth, words, read_number, strtoul, strtol, after_last, cut_at, strip_prefix,
}
use konro.Text.{Bytes, codes, print_ℤ}

pub record PidSample : Type 0 where
  pub pid : ℤ
  pub starttime : ℕ

-- SecurityMonitor::PidSample{}
abbrev pub no_sample : PidSample
no_sample = record { pid = pos 0; starttime = 0 }

-- The loop's variables of `countConnections`.
pub record Connections : Type 0 where
  pub dests : List Bytes
  pub syn_sent : ℕ
  pub total : ℕ

abbrev pub no_connections : Connections
no_connections = record { dests = []; syn_sent = 0; total = 0 }

abbrev pub has_inode : ℕ → List ℕ → Bool
has_inode inode [] = false
has_inode inode (i ∷ is) = if i == inode then true else has_inode inode is

abbrev pub has_text : Bytes → List Bytes → Bool
has_text s [] = false
has_text s (t ∷ ts) = if same_text t s then true else has_text s ts

-- std::set::insert
abbrev pub insert_text : Bytes → List Bytes → List Bytes
insert_text s ts = if has_text s ts then ts else ts ++ s ∷ []

-- Field 22 of the line of /proc/<pid>/stat, 0 where it cannot be read.
unfoldable pub starttime_of : Option (List Bytes) → ℕ
unfolding after_last words read_number
starttime_of none = 0
starttime_of (some lines) = elim (after_last b')' (first_line lines)) [
  | none ↦ 0
  | some rest ↦ elim (nth 19 (words rest)) [
    | none ↦ 0
    | some word ↦ elim (read_number word) [ none ↦ 0 | some r ↦ r.0 ]
  ]
]

-- The inode of a link like socket:[12345], 0 for another link.
unfoldable pub socket_inode : Bytes → ℕ
unfolding strip_prefix strtoul
socket_inode target = elim (strip_prefix (codes "socket:[") target) [
  | none ↦ 0
  | some rest ↦ strtoul rest
]

-- result[inode] = pid
unfoldable pub assign_inode : ℕ → ℤ → List (ℕ × ℤ) → List (ℕ × ℤ)
assign_inode inode pid [] = (inode, pid) ∷ []
assign_inode inode pid ((i, p) ∷ result) =
    if i == inode then (i, pid) ∷ result else (i, p) ∷ assign_inode inode pid result

abbrev pub keys : List (ℕ × ℤ) → List ℕ
keys [] = []
keys ((i, p) ∷ result) = i ∷ keys result

-- Whether a character is not '0'.
abbrev pub is_address : Bytes → Bool
is_address [] = false
is_address (c ∷ s) = if c == b'0' then is_address s else true

-- One row of /proc/<pid>/net/tcp with its remote address, its state and its inode.
abbrev pub connection : Bytes → Bytes → Connections → Connections
connection rem st c =
    let ip = (cut_at b':' rem).0 in
    record {
      dests = if is_address ip then insert_text ip c.dests else c.dests;
      syn_sent = if same_text st (codes "02") then c.syn_sent + 1 else c.syn_sent;
      total = c.total + 1;
    }

-- Counted are the rows with ten fields and one of the inodes.
unfoldable pub connection_row : List ℕ → List Bytes → Connections → Connections
unfolding strtoul cut_at
connection_row inodes (sl ∷ local ∷ rem ∷ st ∷ a ∷ b ∷ d ∷ uid ∷ e ∷ inode ∷ more) c =
    if has_inode (strtoul inode) inodes then connection rem st c else c
connection_row inodes row c = c

unfoldable pub connection_rows : List ℕ → List Bytes → Connections → Connections
unfolding connection_row words
connection_rows inodes [] c = c
connection_rows inodes (line ∷ lines) c =
    connection_rows inodes lines (connection_row inodes (words line) c)

-- A table whose file is missing has no rows; the first line is the header.
abbrev pub rows : Option (List Bytes) → List Bytes
rows none = []
rows (some lines) = drop 1 lines

-- Whether the field holds one of the inodes.
abbrev pub is_owned : List ℕ → Bytes → Bool
is_owned inodes field = let inode = strtoul field in ltb 0 inode && has_inode inode inodes

unfoldable pub index_of_inode : List ℕ → ℕ → List Bytes → Bool
unfolding words strtoul
index_of_inode inodes idx [] = false
index_of_inode inodes idx (line ∷ lines) =
    let rest = index_of_inode inodes idx lines in
    elim (nth idx (words line)) [
      | none ↦ rest
      | some field ↦ if is_owned inodes field then true else rest
    ]

abbrev pub last_word : List Bytes → Bytes
last_word [] = []
last_word (w ∷ []) = w
last_word (w ∷ v ∷ ws) = last_word (v ∷ ws)

unfoldable pub packet_inode : List ℕ → List Bytes → Bool
unfolding words strtoul
packet_inode inodes [] = false
packet_inode inodes (line ∷ lines) =
    let rest = packet_inode inodes lines in
    if is_owned inodes (last_word (words line)) then true else rest

abbrev pub is_blank : ℕ → Bool
is_blank c = if c == b' ' then true else c == 9

abbrev pub trim_front : Bytes → Bytes
trim_front [] = []
trim_front (c ∷ s) = if is_blank c then trim_front s else c ∷ s

abbrev pub put_char : ℕ → Bytes → Bytes
put_char c [] = if is_blank c then [] else c ∷ []
put_char c (d ∷ s) = c ∷ d ∷ s

abbrev pub trim_back : Bytes → Bytes
trim_back [] = []
trim_back (c ∷ s) = put_char c (trim_back s)

-- The last of n + 1 numbers, if all can be read.
unfoldable pub last_number : ℕ → Bytes → Option ℕ
unfolding read_number
last_number zero s = elim (read_number s) [ none ↦ none | some r ↦ some r.0 ]
last_number (suc n) s = elim (read_number s) [ none ↦ none | some r ↦ last_number n r.1 ]

-- What a row of /proc/net/dev adds.
unfoldable pub tx_of : Bytes → Bytes → ℕ
unfolding last_number
tx_of iface rest =
    if is_empty iface
    then 0
    else if same_text iface (codes "lo")
    then 0
    else elim (last_number 8 rest) [ none ↦ 0 | some n ↦ n ]

unfoldable pub tx_row : Bytes → ℕ
unfolding cut_at tx_of
tx_row line =
    let r = cut_at b':' line in
    elim r.1 [ none ↦ 0 | some rest ↦ tx_of (trim_back (trim_front r.0)) rest ]

unfoldable pub tx_rows : List Bytes → ℕ → ℕ
unfolding tx_row
tx_rows [] n = n
tx_rows (line ∷ lines) n = tx_rows lines ((n + tx_row line) % 2 ^ 64)

abbrev pub or_missing : Option ℕ → ℕ
or_missing none = 0
or_missing (some n) = n

-- try { return m; } catch (...) { } return 0;
abbrev pub or_zero : {W : Type 0} → Exit ℕ × W → Exit ℕ × W
or_zero (ok n, w) = (ok n, w)
or_zero (exception, w) = (ok 0, w)
or_zero (undefined, w) = (undefined, w)
