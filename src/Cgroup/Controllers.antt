-- ===== src/Cgroup/Controllers.antt =====
-- rm/platformcontrol/cgroup/controllers: the files that each controller reads and writes, and what
-- the operations of an AppMapping use of them.
use konro.Base.{
  ℕ, ◌*◌, ◌/◌, ◌%◌, ◌^◌, ◌==◌, ◌||◌, Option, none, some, List, [], ◌∷◌, ◌++◌, if◌then◌else◌,
}
use konro.Base.Int.{ℤ, to_uint64}
use konro.App.{App}
use konro.AppMapping.{CgroupFiles}
use konro.Cgroup
use konro.Cgroup.{
  CgroupConfig, get_line, get_content, set_value, get_value_as_int, get_content_as_map,
}
use konro.Cpuset.{CpusetVector}
use konro.CpusetText.{Parse, parsed, invalid_format, unfinished, cpus_text, parse_cpu_set}
use konro.Effect.{M, ok, exception, undefined, ◌>>=◌, pure, in_bounds}
use konro.NumericValue
use konro.NumericValue.{numeric_max, numeric_invalid, init, extract}
use konro.Os.{Os}
use konro.Streams.{words, read_int}
use konro.Text.{Bytes, codes, print_ℕ, print_ℤ}

-- CpuControl::period_
abbrev pub period : ℕ
period = 100000

-- The text that `setMax` writes to cpu.max.
unfoldable pub cpu_max_text : ℕ → Bytes
unfolding NumericValue.print print_ℕ
cpu_max_text percentage =
    if percentage == numeric_max
    then NumericValue.print percentage ++ b' ' ∷ print_ℕ period
    else print_ℕ (percentage * period % 2 ^ 64 / 100) ++ b' ' ∷ print_ℕ period

-- value * 100 / period in uint64_t; a division by 0 is undefined.
abbrev pub normalized : ℕ → ℤ → Option ℕ
normalized value per =
    let d = to_uint64 per in if d == 0 then none else some (value * 100 % 2 ^ 64 / d)

-- What `getMax` makes of the words of the line of cpu.max; `none` is a division by 0.
unfoldable pub max_of_words : List Bytes → Option ℕ
unfolding extract read_int
max_of_words [] = some numeric_invalid
max_of_words (word ∷ []) = some numeric_invalid
max_of_words (word ∷ text ∷ more) =
    let value = extract (some word) in
    elim (read_int text) [
      | none ↦ some numeric_invalid
      | some per ↦
          if value == numeric_invalid || value == numeric_max
          then some value
          else normalized value per
    ]

unfoldable pub cpu_max_of : Bytes → Option ℕ
unfolding max_of_words words
cpu_max_of line = max_of_words (words line)

abbrev pub cpus_of : {W : Type 0} → Parse → M W CpusetVector
cpus_of (parsed vec) w = (ok vec, w)
cpus_of invalid_format w = (exception, w)
cpus_of unfinished w = (undefined, w)

module _ (os : Os) (config : CgroupConfig) where
  unfoldable pub cpu_set_max : ℕ → App → M os.World (Unit {0})
  unfolding cpu_max_text set_value
  cpu_set_max percentage app =
      set_value os config (codes "cpu") (codes "cpu.max") (cpu_max_text percentage) app

  unfoldable pub cpu_get_max : App → M os.World ℕ
  unfolding cpu_max_of get_line
  cpu_get_max app = do
    line ← get_line os config (codes "cpu") (codes "cpu.max") app
    in_bounds (cpu_max_of line)

  unfoldable pub cpu_get_stat : App → M os.World (List (Bytes × ℕ))
  unfolding get_content_as_map
  cpu_get_stat app = get_content_as_map os config (codes "cpu") (codes "cpu.stat") app

  unfoldable pub cpu_set_weight : ℤ → App → M os.World (Unit {0})
  unfolding set_value print_ℤ
  cpu_set_weight weight app =
      set_value os config (codes "cpu") (codes "cpu.weight") (print_ℤ weight) app

  -- The four readers of CpusetControl, by the file.
  unfoldable pub read_cpus : Bytes → App → M os.World CpusetVector
  unfolding get_line parse_cpu_set
  read_cpus file app = do
    line ← get_line os config (codes "cpuset") file app
    cpus_of (parse_cpu_set line)

  unfoldable pub set_cpus : CpusetVector → App → M os.World (Unit {0})
  unfolding set_value cpus_text
  set_cpus cpus app =
      set_value os config (codes "cpuset") (codes "cpuset.cpus") (cpus_text cpus) app

  unfoldable pub set_mems : CpusetVector → App → M os.World (Unit {0})
  unfolding set_value cpus_text
  set_mems nodes app =
      set_value os config (codes "cpuset") (codes "cpuset.mems") (cpus_text nodes) app

  unfoldable pub get_cpus : App → M os.World CpusetVector
  unfolding read_cpus
  get_cpus app = read_cpus (codes "cpuset.cpus") app

  unfoldable pub get_cpus_effective : App → M os.World CpusetVector
  unfolding read_cpus
  get_cpus_effective app = read_cpus (codes "cpuset.cpus.effective") app

  unfoldable pub get_mems : App → M os.World CpusetVector
  unfolding read_cpus
  get_mems app = read_cpus (codes "cpuset.mems") app

  unfoldable pub get_mems_effective : App → M os.World CpusetVector
  unfolding read_cpus
  get_mems_effective app = read_cpus (codes "cpuset.mems.effective") app

  unfoldable pub memory_get_current : App → M os.World ℤ
  unfolding get_value_as_int
  memory_get_current app = get_value_as_int os config (codes "memory") (codes "memory.current") app

  unfoldable pub memory_set_min : ℤ → App → M os.World (Unit {0})
  unfolding set_value print_ℤ
  memory_set_min n app = set_value os config (codes "memory") (codes "memory.min") (print_ℤ n) app

  unfoldable pub memory_get_min : App → M os.World ℤ
  unfolding get_value_as_int
  memory_get_min app = get_value_as_int os config (codes "memory") (codes "memory.min") app

  unfoldable pub memory_set_max : ℕ → App → M os.World (Unit {0})
  unfolding set_value NumericValue.print
  memory_set_max n app =
      set_value os config (codes "memory") (codes "memory.max") (NumericValue.print n) app

  unfoldable pub memory_get_max : App → M os.World ℕ
  unfolding get_line init
  memory_get_max app = do
    line ← get_line os config (codes "memory") (codes "memory.max") app
    pure (init (some (line, [])))

  unfoldable pub memory_get_events : App → M os.World (List (Bytes × ℕ))
  unfolding get_content_as_map
  memory_get_events app = get_content_as_map os config (codes "memory") (codes "memory.events") app

  unfoldable pub memory_get_stat : App → M os.World (List (Bytes × ℕ))
  unfolding get_content_as_map
  memory_get_stat app = get_content_as_map os config (codes "memory") (codes "memory.stat") app

  unfoldable pub pids_set_max : ℕ → App → M os.World (Unit {0})
  unfolding set_value NumericValue.print
  pids_set_max n app =
      set_value os config (codes "pids") (codes "pids.max") (NumericValue.print n) app

  unfoldable pub pids_get_max : App → M os.World ℕ
  unfolding get_line init
  pids_get_max app = do
    line ← get_line os config (codes "pids") (codes "pids.max") app
    pure (init (some (line, [])))

  unfoldable pub pids_get_current : App → M os.World ℕ
  unfolding get_value_as_int
  pids_get_current app = do
    n ← get_value_as_int os config (codes "pids") (codes "pids.current") app
    pure (to_uint64 n)

  -- The controllers as the operations of an AppMapping call them.
  abbrev pub cgroup_files : CgroupFiles
  cgroup_files = record {
    World = os.World;
    set_cpus = set_cpus;
    get_cpus_effective = get_cpus_effective;
    set_mems = set_mems;
    get_mems_effective = get_mems_effective;
    set_cpu_max = cpu_set_max;
    get_cpu_max = cpu_get_max;
    get_memory_current = memory_get_current;
    set_memory_min = memory_set_min;
    get_memory_min = memory_get_min;
    set_memory_max = memory_set_max;
    get_memory_max = memory_get_max;
    get_pids_current = pids_get_current;
    set_pids_max = pids_set_max;
    get_pids_max = pids_get_max;
    set_freeze = Cgroup.set_freeze os config;
  }
