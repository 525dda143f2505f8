-- ===== src/AppMapping.antt =====
-- rm/policymanager/appmapping.h: an application with the resources it was given, a cache in front of
-- the files of its cgroup. The controllers' access to the files is the parameter `CgroupFiles`.
pub mod Cache
pub mod Frame
pub mod Writes
use konro.Base.{
  ℕ, ◌^◌, ◌-◌, Bool, true, false, Option, none, some, List, [], ◌∷◌, ◌==◌, if◌then◌else◌,
}
use konro.Base.Int.{ℤ, pos, negsuc, eqb_ℤ, to_int, to_uint64}
use konro.App.{App, SecurityLevel}
use konro.Cpuset
use konro.Cpuset.{CpusetVector}
use konro.Effect.{M, Exit, ok, exception, undefined, continue, ◌>>=◌, ◌>>◌, pure, get, modify}
use konro.Float.{Float}
pub use konro.NumericValue.{numeric_max, numeric_invalid}
use konro.SecState.{StateTracker, cleared}

-- CpusetControl, CpuControl, MemoryControl, PidsControl and CGroupControl::setFreeze, for the files
-- of an app's cgroup.
pub record CgroupFiles : Type 1 where
  pub World : Type 0
  pub set_cpus : CpusetVector → App → M World (Unit {0})
  pub get_cpus_effective : App → M World CpusetVector
  pub set_mems : CpusetVector → App → M World (Unit {0})
  pub get_mems_effective : App → M World CpusetVector
  pub set_cpu_max : ℕ → App → M World (Unit {0})
  pub get_cpu_max : App → M World ℕ
  pub get_memory_current : App → M World ℤ
  pub set_memory_min : ℤ → App → M World (Unit {0})
  pub get_memory_min : App → M World ℤ
  pub set_memory_max : ℕ → App → M World (Unit {0})
  pub get_memory_max : App → M World ℕ
  pub get_pids_current : App → M World ℕ
  pub set_pids_max : ℕ → App → M World (Unit {0})
  pub get_pids_max : App → M World ℕ
  pub set_freeze : Bool → App → M World (Unit {0})

module _ (fl : Float) where
  open fl use {F, literal}

  pub record AppMapping : Type 0 where
    pub app : App
    pub pu_vec : CpusetVector
    pub cpu_max : ℕ
    pub mem_nodes : CpusetVector
    pub min_memory : ℤ
    pub max_memory : ℤ
    pub last_feedback : ℤ
    pub security_level : SecurityLevel
    pub sai : F
    pub sec_state : StateTracker
    pub quarantine : Bool
    pub baseline_pids : ℤ

  abbrev pub make_app_mapping : App → AppMapping
  make_app_mapping app = record {
    app = app;
    pu_vec = [];
    cpu_max = numeric_invalid;
    mem_nodes = [];
    min_memory = negsuc 0;
    max_memory = negsuc 0;
    last_feedback = negsuc 0;
    security_level = app.security_level;
    sai = literal 0 1;
    sec_state = cleared;
    quarantine = false;
    baseline_pids = negsuc 0;
  }

abbrev pub is_empty : CpusetVector → Bool
is_empty [] = true
is_empty (r ∷ vec) = false

module _ (fl : Float) (files : CgroupFiles) where
  open files use {
    World, set_cpus, get_cpus_effective, set_mems, get_mems_effective, set_cpu_max, get_cpu_max,
    get_memory_current, set_memory_min, get_memory_min, set_memory_max, get_memory_max,
    get_pids_current, set_pids_max, get_pids_max,
  }

  -- What a method works on: the mapping, the fields of the policy that calls it, and the files.
  pub record Context (Own : Type 0) : Type 0 where
    pub mapping : AppMapping fl
    pub own : Own
    pub world : World

  module _ {Own : Type 0} where
    -- A call of a controller, for the app of the mapping.
    abbrev pub on_files : {A : Type 0} → (App → M World A) → M (Context Own) A
    on_files m c = let r = m c.mapping.app c.world in (r.0, record c { world = r.1 })

    abbrev pub update : (AppMapping fl → AppMapping fl) → M (Context Own) (Unit {0})
    update f = modify (λ c. record c { mapping = f c.mapping })

    unfoldable pub get_pu_vector : M (Context Own) CpusetVector
    get_pu_vector c =
        if is_empty c.mapping.pu_vec
        then (do
          vec ← on_files get_cpus_effective
          update (λ m. record m { pu_vec = vec })
          pure vec)
            c
        else (ok c.mapping.pu_vec, c)

    unfoldable pub set_pu_vector : CpusetVector → M (Context Own) (Unit {0})
    set_pu_vector vec = do on_files (set_cpus vec); update (λ m. record m { pu_vec = vec })

    unfoldable pub count_pus : M (Context Own) ℤ
    count_pus c = (ok (Cpuset.count_pus c.mapping.pu_vec), c)

    unfoldable pub get_cpu_max_cached : M (Context Own) ℕ
    get_cpu_max_cached c =
        if c.mapping.cpu_max == numeric_invalid
        then (do band ← on_files get_cpu_max; update (λ m. record m { cpu_max = band }); pure band)
            c
        else (ok c.mapping.cpu_max, c)

    unfoldable pub set_cpu_max_cached : ℕ → M (Context Own) (Unit {0})
    set_cpu_max_cached cpu_max = do
      on_files (set_cpu_max cpu_max)
      update (λ m. record m { cpu_max = cpu_max })

    unfoldable pub get_mem_nodes : M (Context Own) CpusetVector
    get_mem_nodes c =
        if is_empty c.mapping.mem_nodes
        then (do
          nodes ← on_files get_mems_effective
          update (λ m. record m { mem_nodes = nodes })
          pure nodes)
            c
        else (ok c.mapping.mem_nodes, c)

    unfoldable pub set_mem_nodes : CpusetVector → M (Context Own) (Unit {0})
    set_mem_nodes nodes = do on_files (set_mems nodes); update (λ m. record m { mem_nodes = nodes })

    unfoldable pub get_min_memory : M (Context Own) ℤ
    get_min_memory c =
        if eqb_ℤ c.mapping.min_memory (negsuc 0)
        then (do n ← on_files get_memory_min; update (λ m. record m { min_memory = n }); pure n) c
        else (ok c.mapping.min_memory, c)

    unfoldable pub set_min_memory : ℤ → M (Context Own) (Unit {0})
    set_min_memory n = do on_files (set_memory_min n); update (λ m. record m { min_memory = n })

    -- The field is an int: the value is converted to one, and back for the caller.
    unfoldable pub get_max_memory : M (Context Own) ℕ
    get_max_memory c =
        if eqb_ℤ c.mapping.max_memory (negsuc 0)
        then (do
          n ← on_files get_memory_max
          update (λ m. record m { max_memory = to_int (pos n) })
          pure (to_uint64 (to_int (pos n))))
            c
        else (ok (to_uint64 c.mapping.max_memory), c)

    unfoldable pub set_max_memory : ℕ → M (Context Own) (Unit {0})
    set_max_memory n = do
      on_files (set_memory_max n)
      update (λ m. record m { max_memory = to_int (pos n) })

    unfoldable pub get_current_memory : M (Context Own) ℤ
    get_current_memory = on_files get_memory_current

    unfoldable pub set_last_feedback : ℤ → M (Context Own) (Unit {0})
    set_last_feedback feedback = update (λ m. record m { last_feedback = feedback })

    unfoldable set_security_level : SecurityLevel → M (Context Own) (Unit {0})
    set_security_level level = update (λ m. record m { security_level = level })

    unfoldable pub set_sai : fl.F → M (Context Own) (Unit {0})
    set_sai sai = update (λ m. record m { sai = sai })

    unfoldable pub set_quarantine : Bool → M (Context Own) (Unit {0})
    set_quarantine quarantine = update (λ m. record m { quarantine = quarantine })

    unfoldable pub set_baseline_pids : ℤ → M (Context Own) (Unit {0})
    set_baseline_pids pids = update (λ m. record m { baseline_pids = pids })

    unfoldable pub get_current_pids : M (Context Own) ℤ
    get_current_pids = do n ← on_files get_pids_current; pure (to_int (pos n))

    unfoldable pub get_max_pids : M (Context Own) ℕ
    get_max_pids = on_files get_pids_max

    unfoldable pub set_max_pids : ℕ → M (Context Own) (Unit {0})
    set_max_pids max_pids = on_files (set_pids_max max_pids)
