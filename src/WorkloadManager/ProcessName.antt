-- ===== src/WorkloadManager/ProcessName.antt =====
-- rm/workloadmanager/workloadmanager.cpp: the name of a process, as the kernel tells it.
use konro.Base.{Option, none, some, List, [], ◌∷◌, ◌++◌, ◌==◌, if◌then◌else◌}
use konro.Base.Int.{ℤ}
use konro.Os.{Os}
use konro.Text.{Bytes, codes, print_ℤ}

-- Each zero becomes a blank.
unfoldable without_zeros : Bytes → Bytes
without_zeros [] = []
without_zeros (c ∷ s) = (if c == 0 then b' ' else c) ∷ without_zeros s

-- The first line of the file, the empty text where there is none.
abbrev line_of : Option (List Bytes) → Bytes
line_of none = []
line_of (some []) = []
line_of (some (line ∷ lines)) = line

unfoldable get_process_name_by_pid : (os : Os) → ℤ → os.World → Bytes × os.World
unfolding without_zeros print_ℤ
get_process_name_by_pid os pid w =
    let r = os.read_lines (codes "/proc/" ++ print_ℤ pid ++ codes "/cmdline") w in
    (without_zeros (line_of r.0), r.1)
