-- ===== src/PlatformDescription.antt =====
-- rm/platformdescription/platformdescription.h and platformdescription.cpp. The tree that hwloc finds
-- is a parameter: each processing unit is the chain of the objects from itself up to the machine.
pub mod Distance
use konro.Base.{
  ℕ, zero, suc, ◌+◌, ◌*◌, ◌/◌, ◌%◌, ◌^◌, ◌==◌, Bool, true, false, ◌&&◌, Option, none, some, List,
  [], ◌∷◌, ◌++◌, length, replicate, set, get_elem?, if◌then◌else◌,
}
use konro.Base.Int.{ℤ, pos, negsuc, eqb_ℤ, to_short}
use konro.Base.OrderedSet.{insert_key}

pub data ObjType : Type 0 where
  obj_package obj_core obj_other : ObjType
  obj_cache : ℕ → ObjType

-- An object; the address tells objects apart.
pub record Obj : Type 0 where
  pub address : ℕ
  pub obj_type : ObjType
  pub os_index : ℤ
  pub logical_index : ℤ

abbrev pub Chain : Type 0
Chain = List Obj

-- ProcessingUnitMapping: the indices of a unit and of what contains it, -1 where none does; of each
-- level of cache both indices.
pub record ProcessingUnitMapping : Type 0 where
  pub os_pu_idx : ℤ
  pub os_core_idx : ℤ
  pub os_cpu_idx : ℤ
  pub caches : List (ℤ × ℤ)

unfoldable pub make_mapping : ℤ → ProcessingUnitMapping
make_mapping idx = record {
  os_pu_idx = idx;
  os_core_idx = negsuc 0;
  os_cpu_idx = negsuc 0;
  caches = replicate 5 (negsuc 0, negsuc 0);
}

unfoldable pub set_cache : ℕ → ℤ → ℤ → ProcessingUnitMapping → ProcessingUnitMapping
set_cache zero os_idx logical_idx m = m
set_cache (suc level) os_idx logical_idx m = record m {
  caches = set m.caches level (os_idx, logical_idx);
}

unfoldable pub get_cache : ℕ → ProcessingUnitMapping → ℤ × ℤ
get_cache zero m = (negsuc 0, negsuc 0)
get_cache (suc level) m = elim (get_elem? m.caches level) [
  | none ↦ (negsuc 0, negsuc 0)
  | some c ↦ c
]

-- The switch over the type of an object above the unit.
unfoldable pub enter : Obj → ProcessingUnitMapping → ProcessingUnitMapping
unfolding set_cache
enter o m = elim o.obj_type [
  | obj_package ↦ record m { os_cpu_idx = o.os_index }
  | obj_core ↦ record m { os_core_idx = o.os_index }
  | obj_other ↦ m
  | obj_cache level ↦ set_cache level o.os_index o.logical_index m
]

unfoldable pub enter_all : Chain → ProcessingUnitMapping → ProcessingUnitMapping
unfolding enter
enter_all [] m = m
enter_all (o ∷ parents) m = enter_all parents (enter o m)

unfoldable pub get_processing_units : List Chain → List ProcessingUnitMapping
unfolding enter_all make_mapping
get_processing_units [] = []
get_processing_units ([] ∷ pus) = get_processing_units pus
get_processing_units ((o ∷ parents) ∷ pus) =
    enter_all parents (make_mapping o.os_index) ∷ get_processing_units pus

-- The index of a chain's first object.
abbrev pub has_os_index : ℤ → Chain → Bool
has_os_index idx [] = false
has_os_index idx (o ∷ parents) = eqb_ℤ o.os_index idx

-- The null pointer is the empty chain.
unfoldable pub find_obj_by_os_index : List Chain → ℤ → Chain
find_obj_by_os_index [] idx = []
find_obj_by_os_index (pu ∷ pus) idx =
    if has_os_index idx pu then pu else find_obj_by_os_index pus idx

-- The loop of `objDistance`, up both chains at once.
unfoldable pub climb : Chain → Chain → ℕ
climb [] c2 = 0
climb (o1 ∷ c1) [] = 0
climb (o1 ∷ c1) (o2 ∷ c2) =
    let further = climb c1 c2 in if o1.address == o2.address then 0 else further + 1

unfoldable pub obj_distance : Chain → Chain → ℕ
unfolding climb
obj_distance [] c2 = 10
obj_distance (o1 ∷ c1) [] = 10
obj_distance (o1 ∷ c1) (o2 ∷ c2) = climb (o1 ∷ c1) (o2 ∷ c2)

unfoldable pub get_pu_distance : List Chain → ℤ → ℤ → ℤ
unfolding find_obj_by_os_index obj_distance
get_pu_distance pus pu1 pu2 =
    pos (obj_distance (find_obj_by_os_index pus pu1) (find_obj_by_os_index pus pu2))

unfoldable pub get_num_processing_units : List Chain → ℕ
get_num_processing_units pus = length pus

-- 0, 1, …: the loop of `getPUSet` for the indices from i on.
unfoldable pub pu_set_from : ℕ → ℕ → List ℤ → List ℤ
unfolding insert_key
pu_set_from i zero res = res
pu_set_from i (suc n) res = pu_set_from (suc i) n (insert_key (to_short (pos i)) res)

unfoldable pub get_pu_set : List Chain → List ℤ
unfolding pu_set_from
get_pu_set pus = pu_set_from 0 (get_num_processing_units pus) []

-- What sysinfo tells, a parameter; the sizes are in units.
pub record SysInfo : Type 0 where
  pub totalram : ℕ
  pub totalswap : ℕ
  pub mem_unit : ℕ

unfoldable get_memory_info : Option SysInfo → ℕ
get_memory_info none = 0
get_memory_info (some info) = (info.totalram * info.mem_unit) % 2 ^ 64 / 1024

unfoldable get_swap_info : Option SysInfo → ℕ
get_swap_info none = 0
get_swap_info (some info) = (info.totalswap * info.mem_unit) % 2 ^ 64 / 1024

-- The sizes of the memory and of the swap in KB, from the two calls of sysinfo.
unfoldable init_memory_info : Option SysInfo → Option SysInfo → ℕ × ℕ
unfolding get_memory_info get_swap_info
init_memory_info for_memory for_swap = (get_memory_info for_memory, get_swap_info for_swap)
