-- ===== src/PlatformMonitor.antt =====
-- rm/platformmonitor/platformmonitor.cpp and cputimedata.h, with rm/librmcommon/platformload.h: the
-- loads from the times of /proc/stat.
pub mod Sensors
pub mod Usage
use konro.Base.{
  ℕ, zero, suc, ◌+◌, ◌-◌, ◌*◌, ◌/◌, ◌%◌, ◌^◌, Bool, true, false, not, ◌&&◌, Option, none, some,
  List, [], ◌∷◌, ◌++◌, ◌==◌, length, get_elem?, set, if◌then◌else◌,
}
use konro.Base.Int.{ℤ, pos, negsuc, ◌-ℤ◌, leb_ℤ, to_int, hundred}
use konro.Cgroup.{tsplit}
use konro.Float.{Float}
use konro.NumericValue.{same_text}
use konro.ProcFs.{has_text}
use konro.Streams.{nth, words, behind_word, read_number, strip_prefix}
use konro.Text.{Bytes, codes, is_digit}

-- The fields of CPUTimeData; the sums and differences are of type uint64_t.
pub record CpuTimeData : Type 0 where
  pub name : Bytes
  pub usertime : ℕ
  pub nicetime : ℕ
  pub systemtime : ℕ
  pub idletime : ℕ
  pub io_wait : ℕ
  pub irq : ℕ
  pub soft_irq : ℕ
  pub steal : ℕ
  pub guest : ℕ
  pub guestnice : ℕ
  pub totaltime : ℕ

-- a - b in uint64_t
abbrev pub sub_64 : ℕ → ℕ → ℕ
sub_64 a b = (a + (2 ^ 64 - b)) % 2 ^ 64

unfoldable pub make_cpu_time_data : Bytes → ℕ → ℕ → ℕ → ℕ → ℕ → ℕ → ℕ → ℕ → ℕ → ℕ → CpuTimeData
make_cpu_time_data name user nice system idle io_wait irq soft_irq steal guest guestnice =
    let usertime = sub_64 user guest in
    let nicetime = sub_64 nice guestnice in
    record {
      name = name;
      usertime = usertime;
      nicetime = nicetime;
      systemtime = system;
      idletime = idle;
      io_wait = io_wait;
      irq = irq;
      soft_irq = soft_irq;
      steal = steal;
      guest = guest;
      guestnice = guestnice;
      totaltime =
          (usertime + nicetime + system + irq + soft_irq + idle + io_wait + steal + guest
            + guestnice)
          % 2 ^ 64;
    }

-- n numbers that the stream reads one after the other; `none` if it fails.
unfoldable pub numbers : ℕ → Bytes → Option (List ℕ)
unfolding read_number
numbers zero s = some []
numbers (suc n) s = elim (read_number s) [
  | none ↦ none
  | some r ↦ elim (numbers n r.1) [ none ↦ none | some ns ↦ some (r.0 ∷ ns) ]
]

abbrev pub times_of : Bytes → List ℕ → Option CpuTimeData
times_of name (a ∷ b ∷ c ∷ d ∷ e ∷ f ∷ g ∷ h ∷ i ∷ j ∷ []) =
    some (make_cpu_time_data name a b c d e f g h i j)
times_of name ns = none

-- A line of /proc/stat: a name and ten numbers, `none` where the stream fails.
unfoldable pub parse_times : Bytes → Option CpuTimeData
unfolding numbers make_cpu_time_data words behind_word
parse_times line = elim (nth 0 (words line)) [
  | none ↦ none
  | some name ↦ elim (numbers 10 (behind_word line)) [ none ↦ none | some ns ↦ times_of name ns ]
]

-- Whether the line begins with "cpu" and goes on.
unfoldable pub is_cpu_line : Bytes → Bool
unfolding strip_prefix
is_cpu_line line = elim (strip_prefix (codes "cpu") line) [
  | none ↦ false
  | some rest ↦ not (length rest == 0)
]

unfoldable pub parse_cpu_line : Bytes → Option CpuTimeData
unfolding is_cpu_line parse_times
parse_cpu_line line = if is_cpu_line line then parse_times line else none

-- int arithmetic: an overflow is undefined.
unfoldable pub in_int : ℤ → Option ℤ
in_int z = if leb_ℤ (negsuc 2147483647) z && leb_ℤ z (pos 2147483647) then some z else none

-- a / b in int, towards zero; `none` for b = 0 and for the overflow.
abbrev pub div_int : ℤ → ℤ → Option ℤ
div_int a (pos zero) = none
div_int (pos n) (pos (suc d)) = some (pos (n / suc d))
div_int (negsuc n) (pos (suc d)) = some (pos 0 -ℤ pos (suc n / suc d))
div_int (pos n) (negsuc d) = some (pos 0 -ℤ pos (n / suc d))
div_int (negsuc n) (negsuc d) = in_int (pos (suc n / suc d))

-- The percentage of use between two snapshots; `none` is undefined behaviour.
unfoldable pub usage_of : ℤ → ℤ → Option ℤ
usage_of delta idle = elim (in_int (delta -ℤ idle)) [
  | none ↦ none
  | some busy ↦ elim (in_int (hundred busy)) [ none ↦ none | some scaled ↦ div_int scaled delta ]
]

unfoldable pub usage : CpuTimeData → CpuTimeData → Option ℤ
unfolding usage_of in_int to_int
usage now before =
    usage_of (to_int (pos (sub_64 now.totaltime before.totaltime)))
      (to_int (pos (sub_64 now.idletime before.idletime)))

-- rmcommon::PlatformLoad
pub record PlatformLoad : Type 0 where
  pub cpus : List ℤ
  pub pus : List ℤ

abbrev pub no_load : PlatformLoad
no_load = record { cpus = []; pus = [] }

unfoldable pub add_cpu_load : ℤ → PlatformLoad → PlatformLoad
add_cpu_load load l = record l { cpus = l.cpus ++ load ∷ [] }

unfoldable pub add_pu_load : ℤ → PlatformLoad → PlatformLoad
add_pu_load load l = record l { pus = l.pus ++ load ∷ [] }

abbrev pub add_load : ℕ → ℤ → PlatformLoad → PlatformLoad
add_load zero load l = add_cpu_load load l
add_load (suc n) load l = add_pu_load load l

-- One round on a line that is not the first read: `cpuTimeData[n]` may be out of bounds.
unfoldable pub next_snapshot :
    ℕ → CpuTimeData → List CpuTimeData → PlatformLoad → Option (List CpuTimeData × PlatformLoad)
unfolding usage add_cpu_load add_pu_load
next_snapshot n ctd snapshots l = elim (get_elem? snapshots n) [
  | none ↦ none
  | some before ↦ elim (usage ctd before) [
    | none ↦ none
    | some percent ↦ some (set snapshots n ctd, add_load n percent l)
  ]
]

-- The loop over the first num + 1 lines from the line n on, which ends at a line that cannot be read.
unfoldable pub read_times :
    Bool
    → ℕ
    → ℕ
    → List Bytes
    → List CpuTimeData
    → PlatformLoad
    → Option (List CpuTimeData × PlatformLoad)
unfolding parse_cpu_line next_snapshot
read_times first_read zero n lines snapshots l = some (snapshots, l)
read_times first_read (suc num) n [] snapshots l = some (snapshots, l)
read_times first_read (suc num) n (line ∷ lines) snapshots l = elim (parse_cpu_line line) [
  | none ↦ some (snapshots, l)
  | some ctd ↦ elim first_read [
    | true ↦ read_times true num (suc n) lines (snapshots ++ ctd ∷ []) l
    | false ↦ elim (next_snapshot n ctd snapshots l) [
      | none ↦ none
      | some (snapshots', l') ↦ read_times false num (suc n) lines snapshots' l'
    ]
  ]
]

-- The printing loop at the end reads `cpuTimeData[n]` for every n up to the number of PUs.
abbrev pub all_there : ℕ → List CpuTimeData → Bool
all_there zero snapshots = true
all_there (suc n) [] = false
all_there (suc n) (c ∷ snapshots) = all_there n snapshots

unfoldable pub printed :
    ℕ → List CpuTimeData × PlatformLoad → Option (List CpuTimeData × PlatformLoad)
printed num r = if all_there (suc num) r.0 then some r else none

abbrev pub is_first : List CpuTimeData → Bool
is_first [] = true
is_first (c ∷ cs) = false

-- `none` is undefined behaviour; a file that cannot be opened has no lines.
unfoldable pub handle_cpu_times :
    ℕ → List Bytes → List CpuTimeData → Option (List CpuTimeData × PlatformLoad)
unfolding read_times printed
handle_cpu_times num lines snapshots =
    elim (read_times (is_first snapshots) (suc num) 0 lines snapshots no_load) [
      | none ↦ none
      | some r ↦ printed num r
    ]
