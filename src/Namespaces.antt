-- ===== src/Namespaces.antt =====
-- rm/librmcommon/namespaces.cpp: the pid of a process of another pid namespace.
use konro.Base.{
  ℕ, Bool, true, false, Option, none, some, List, [], ◌∷◌, ◌++◌, ◌==◌, leb, length, if◌then◌else◌,
}
use konro.Base.Int.{ℤ, pos, negsuc, eqb_ℤ, to_int}
use konro.Cgroup.{first_line}
use konro.Effect.{M, ok, exception, undefined, ◌>>=◌, pure}
use konro.Os.{Os, Entry, call}
use konro.ProcFs.{is_blank}
use konro.Streams.{nth, words, push_word, strip_prefix, strtol, strtoul}
use konro.Text.{Bytes, codes, is_digit, print_ℤ}

-- The tokens of strtok between blanks and tabs: the one that the text begins with, and the others.
unfoldable pub split_tokens : Bytes → Bytes × List Bytes
split_tokens [] = ([], [])
split_tokens (c ∷ s) =
    let r = split_tokens s in if is_blank c then ([], push_word r.0 r.1) else (c ∷ r.0, r.1)

unfoldable pub tokens : Bytes → List Bytes
unfolding split_tokens
tokens s = let r = split_tokens s in push_word r.0 r.1

-- The loop over the tokens: `rootpid`, and `last_pid`, which has no value before the first token.
unfoldable pub scan_pids : List Bytes → ℤ → Option ℤ → ℤ × Option ℤ
unfolding strtol to_int
scan_pids [] root last = (root, last)
scan_pids (tok ∷ toks) root last =
    let n = to_int (strtol tok) in
    scan_pids toks (if eqb_ℤ root (negsuc 0) then n else root) (some n)

-- The pids on the line that begins with "NSpid:", if the loop finds one. A line that does not fit
-- the buffer of 1024 characters ends the loop.
unfoldable pub ns_pids : List Bytes → ℤ × Option ℤ
unfolding scan_pids tokens strip_prefix
ns_pids [] = (negsuc 0, none)
ns_pids (line ∷ lines) =
    let rest = ns_pids lines in
    if leb 1024 (length line) then (negsuc 0, none) else elim (strip_prefix (codes "NSpid:") line) [
      | none ↦ rest
      | some pids ↦ scan_pids (tokens pids) (negsuc 0) none
    ]

-- Whether the last pid is the one that is searched, and the first one then; `none` is the comparison
-- with an uninitialised variable.
unfoldable pub compare_pids : ℤ → ℤ × Option ℤ → Option (Option ℤ)
compare_pids pid (root, none) = none
compare_pids pid (root, some last) = some (if eqb_ℤ pid last then some root else none)

abbrev pub found_pid : {W : Type 0} → Option (Option ℤ) → M W (Option ℤ)
found_pid none w = (undefined, w)
found_pid (some r) w = (ok r, w)

abbrev pub entries_of : {W : Type 0} → Option (List Entry) → M W (List Entry)
entries_of none w = (exception, w)
entries_of (some es) w = (ok es, w)

abbrev pub is_number : Bytes → Bool
is_number [] = false
is_number (c ∷ s) = is_digit c

abbrev pub occurs : Bytes → Bytes → Bool
occurs p [] = elim (strip_prefix p []) [ none ↦ false | some rest ↦ true ]
occurs p (c ∷ s) = elim (strip_prefix p (c ∷ s)) [ none ↦ occurs p s | some rest ↦ true ]

module _ (os : Os) where
  -- The pid in the namespace of the caller; `none` where the search fails.
  unfoldable pub get_pid_from_status_file : Bytes → ℤ → M os.World (Option ℤ)
  unfolding ns_pids compare_pids
  get_pid_from_status_file file pid = do
    found ← call (os.read_lines file)
    elim found [ none ↦ pure none | some lines ↦ found_pid (compare_pids pid (ns_pids lines)) ]

  unfoldable pub is_kub_pod : ℤ → os.World → Bool × os.World
  unfolding words strip_prefix print_ℤ
  is_kub_pod pid w =
      let r = os.read_lines (codes "/proc/" ++ print_ℤ pid ++ codes "/cgroup") w in
      let line : Bytes = elim r.0 [ none ↦ [] | some lines ↦ first_line lines ] in
      let path : Bytes = elim (nth 0 (words line)) [ none ↦ [] | some word ↦ word ] in
      (occurs (codes "kubepods") path, r.1)

  abbrev pub or_zero_inode : Option ℕ → ℕ
  or_zero_inode none = 0
  or_zero_inode (some n) = n

  unfoldable pub get_self_pid_namespace : os.World → ℕ × os.World
  get_self_pid_namespace w =
      let r = os.inode_of (codes "/proc/self/ns/pid") w in (or_zero_inode r.0, r.1)

  unfoldable pub get_pid_namespace : ℤ → os.World → ℕ × os.World
  unfolding print_ℤ
  get_pid_namespace pid w =
      let r = os.inode_of (codes "/proc/" ++ print_ℤ pid ++ codes "/ns/pid") w in
      (or_zero_inode r.0, r.1)

  -- A process of the namespace: its status file may name the pid.
  unfoldable pub try_process : ℤ → ℕ → ℤ → M os.World (Option ℤ)
  unfolding get_pid_namespace get_pid_from_status_file print_ℤ
  try_process pid ns cur = do
    cur_ns ← call (get_pid_namespace cur)
    (if cur_ns == ns
        then get_pid_from_status_file (codes "/proc/" ++ print_ℤ cur ++ codes "/status") pid
        else pure none)

  -- The loop of `mapPid` over /proc.
  unfoldable pub map_entries : ℤ → ℕ → List Entry → M os.World ℤ
  unfolding try_process strtoul to_int
  map_entries pid ns [] = pure pid
  map_entries pid ns (e ∷ es) =
      let rest = map_entries pid ns es in
      if is_number e.name
      then (do
        found ← try_process pid ns (to_int (pos (strtoul e.name)))
        elim found [ none ↦ rest | some root ↦ pure root ])
      else rest

  unfoldable pub map_pid : ℤ → ℕ → M os.World ℤ
  unfolding get_self_pid_namespace map_entries
  map_pid pid ns = if ns == 0 then pure pid else (do
    self ← call get_self_pid_namespace
    (if ns == self then pure pid else (do
      found ← call (os.entries (codes "/proc"))
      es ← entries_of found
      map_entries pid ns es)))
