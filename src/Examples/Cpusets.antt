-- ===== src/Examples/Cpusets.antt =====
-- Ranges of PUs, their text and the set that they stand for.
use konro.Base.{◌≡◌, true, ◌||◌, some, List, [], ◌∷◌, arith}
use konro.Base.Int.{ℤ, pos, ◌+ℤ◌, ◌-ℤ◌, eqb_ℤ}
use konro.Base.OrderedSet.{insert_key}
use konro.Cpuset.{
  CpusetVector, contains_pu, to_set, to_vector, to_cpuset_vector, add_pu, one_to_three_five,
}
use konro.Cpuset.Members.{contains_pu-add_pu}
use konro.Cpuset.Ranges.{IsNonneg, to_set-to_cpuset_vector}
use konro.CpusetText.{cpus_text, parsed, parse_cpu_set}
use konro.CpusetText.RoundTrip.{parse_cpu_set-cpus_text}
use konro.NumericValue.{print, extract}
use konro.NumericValue.RoundTrip.{extract-print}

abbrev four : List ℤ
four = pos 1 ∷ pos 2 ∷ pos 3 ∷ pos 5 ∷ []

to_set-to_cpuset_vector_example :
    (vec : CpusetVector) × (to_cpuset_vector four ≡ some vec)
    × (to_set vec ≡ four)
    × (to_vector vec ≡ four)
to_set-to_cpuset_vector_example =
    to_set-to_cpuset_vector four (omega arith, (omega arith, (omega arith, (omega arith, tt))))

one_to_three_five-IsNonneg : IsNonneg (to_set one_to_three_five)
unfolding to_set ◌+ℤ◌ ◌-ℤ◌
one_to_three_five-IsNonneg = (omega arith, (omega arith, (omega arith, (omega arith, tt))))

contains_pu-add_pu_example :
    (vec' : CpusetVector) × (add_pu one_to_three_five (pos 4) ≡ some (vec', true))
    × (to_set vec' ≡ insert_key (pos 4) (to_set one_to_three_five))
    × ((q : ℤ) → contains_pu vec' q ≡ (eqb_ℤ q (pos 4) || contains_pu one_to_three_five q))
contains_pu-add_pu_example =
    contains_pu-add_pu one_to_three_five (pos 4) one_to_three_five-IsNonneg (omega arith)

parse_cpu_set-cpus_text_example :
    parse_cpu_set (cpus_text one_to_three_five) ≡ parsed one_to_three_five
parse_cpu_set-cpus_text_example =
    parse_cpu_set-cpus_text one_to_three_five
      ((omega arith, omega arith), ((omega arith, omega arith), tt))

extract-print_example : extract (some (print 75)) ≡ 75
extract-print_example = extract-print 75 (omega arith) (λ e. omega arith)
