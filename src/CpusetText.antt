-- ===== src/CpusetText.antt =====
-- rm/platformcontrol/cgroup/controllers/cpusetcontrol.cpp: the text of cpuset.cpus and cpuset.mems,
-- as setCpus and setMems write it and parseCpuSet reads it, and rmcommon::toString.
pub mod Total
pub mod RoundTrip
use konro.Base.{
  ℕ, zero, suc, ◌+◌, ◌≡◌, refl, Bool, true, false, Option, none, some, List, [], ◌∷◌, ◌++◌, ◌==◌,
  ltb, if◌then◌else◌, length,
}
use konro.Base.Int.{ℤ, pos, eqb_ℤ, to_short, to_int}
use konro.Cpuset.{CpusetVector, one_to_three_five}
use konro.Text.{Bytes, codes, is_digit, long_max, scan, print_ℤ}

-- The item at index i of the loop of `setCpus` and of `setMems`, behind a comma but for the first.
unfoldable pub item : ℤ × ℤ → Bytes
unfolding print_ℤ
item (first, second) = print_ℤ first ++ (if eqb_ℤ second first then [] else b'-' ∷ print_ℤ second)

items_from : ℕ → CpusetVector → Bytes
items_from i [] = []
items_from i (r ∷ vec) = (if ltb 0 i then b',' ∷ [] else []) ++ item r ++ items_from (i + 1) vec

unfoldable pub cpus_text : CpusetVector → Bytes
unfolding items_from item
cpus_text cpus = items_from 0 cpus

-- The loop of `toString`, over its flag `f`.
string_items : Bool → CpusetVector → Bytes
string_items f [] = []
string_items f ((first, second) ∷ vec) =
    (if f then [] else b',' ∷ [])
    ++ (if eqb_ℤ first second then print_ℤ first else print_ℤ first ++ b'-' ∷ print_ℤ second)
    ++ string_items false vec

unfoldable pub to_string : CpusetVector → Bytes
unfolding string_items print_ℤ
to_string vec = string_items true vec

-- What parsing returns, or throws: `unfinished` is a loop that ran out of fuel.
pub data Parse : Type 0 where
  parsed : CpusetVector → Parse
  invalid_format : Parse
  unfinished : Parse

-- A number that begins with a digit: (int)strtol(p, &endptr, 10), which is then stored as a short.
unfoldable pub cpu_number : Bytes → ℤ × Bytes
cpu_number p = let (n, endptr) = scan long_max 0 p in (to_short (to_int (pos n)), endptr)

-- Behind the second number of a range: the end or a comma.
unfoldable pub range_end : ℤ × ℤ → Bytes → Option ((ℤ × ℤ) × Bytes)
range_end r [] = some (r, [])
range_end r (c ∷ s) = if c == b',' then some (r, s) else none

-- Behind the dash of a range.
unfoldable pub second_number : ℤ → Bytes → Option ((ℤ × ℤ) × Bytes)
unfolding range_end cpu_number
second_number cpu1 [] = none
second_number cpu1 (c ∷ s) =
    if is_digit c
    then (let (cpu2, endptr) = cpu_number (c ∷ s) in range_end (cpu1, cpu2) endptr)
    else none

unfoldable pub after_number : ℤ → Bytes → Option ((ℤ × ℤ) × Bytes)
unfolding second_number
after_number cpu1 [] = some ((cpu1, cpu1), [])
after_number cpu1 (c ∷ s) =
    if c == b',' then some ((cpu1, cpu1), s) else if c == b'-' then second_number cpu1 s else none

-- One round of the loop: the range read and the text behind it; `none` is the exception.
unfoldable pub parse_item : Bytes → Option ((ℤ × ℤ) × Bytes)
unfolding after_number cpu_number
parse_item [] = none
parse_item (c ∷ s) =
    if is_digit c
    then (let (cpu1, endptr) = cpu_number (c ∷ s) in after_number cpu1 endptr)
    else none

unfoldable pub parse_loop : ℕ → CpusetVector → Bytes → Parse
parse_loop zero vec p = unfinished
parse_loop (suc f) vec [] = parsed vec
parse_loop (suc f) vec (c ∷ s) = elim (parse_item (c ∷ s)) [
  | none ↦ invalid_format
  | some (r, p) ↦ parse_loop f (vec ++ r ∷ []) p
]

-- A round for each byte, and one more, is enough.
unfoldable pub parse_cpu_set : Bytes → Parse
unfolding parse_loop parse_item
parse_cpu_set line = parse_loop (suc (length line)) [] line

reads_back : parse_cpu_set (codes "1-3,5") ≡ parsed one_to_three_five
unfolding parse_cpu_set scan to_short to_int
reads_back = refl

writes : cpus_text one_to_three_five ≡ codes "1-3,5"
unfolding cpus_text
writes = refl

refuses : parse_cpu_set (codes "1-") ≡ invalid_format
unfolding parse_cpu_set scan to_short to_int
refuses = refl
