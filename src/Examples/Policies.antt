-- ===== src/Examples/Policies.antt =====
-- The cache and the security policy, over files whose writes succeed.
use konro.Base.{
  ◌+◌, ◌-◌, ℕ, ◌^◌, ◌%◌, ◌<◌, ◌≢◌, ◌↔◌, ◌⊎◌, ◌≡◌, refl, true, false, List, [], ◌∷◌, ◌==◌, arith,
}
use konro.Base.Int.{negsuc, ℤ, pos, ◌≤ℤ◌, ◌-ℤ◌, hundred, to_int, to_uint64}
use konro.App.{high, integrated, make_app}
use konro.AppMapping.{
  numeric_max, numeric_invalid, CgroupFiles, AppMapping, Context, make_app_mapping, get_pu_vector,
  set_pu_vector, get_cpu_max_cached, set_cpu_max_cached, get_max_memory, set_max_memory,
}
use konro.AppMapping.Cache.{get-set_max_memory}
use konro.Cpuset
use konro.Cpuset.{CpusetVector}
use konro.Effect.{ok}
use konro.Float.{hundredths}
use konro.Policies.Quota.{increase_cpu_quota, decrease_cpu_quota}
use konro.Policies.Quota.Bounds.{quota_bounds}
use konro.Policies.SecurityAware.{
  SecurityAwarePolicy, make_security_aware_policy, tracked, security_alert, clear_app,
}
use konro.Policies.SecurityAware.Demands.{Demands}
use konro.Policies.SecurityAware.Containment.{security_alert-Demands, clear_app-Demands}
use konro.SecState.{observe, quarantine, rank, StateTracker, cleared, PolicyThresholds}

abbrev pub quiet : CgroupFiles
quiet = record {
  World = Unit {0};
  set_cpus = λ vec app w. (ok tt, w);
  get_cpus_effective = λ app w. (ok ((pos 0, pos 3) ∷ []), w);
  set_mems = λ vec app w. (ok tt, w);
  get_mems_effective = λ app w. (ok ((pos 0, pos 0) ∷ []), w);
  set_cpu_max = λ n app w. (ok tt, w);
  get_cpu_max = λ app w. (ok 50, w);
  get_memory_current = λ app w. (ok (pos 4096), w);
  set_memory_min = λ n app w. (ok tt, w);
  get_memory_min = λ app w. (ok (pos 0), w);
  set_memory_max = λ n app w. (ok tt, w);
  get_memory_max = λ app w. (ok numeric_max, w);
  get_pids_current = λ app w. (ok 3, w);
  set_pids_max = λ n app w. (ok tt, w);
  get_pids_max = λ app w. (ok numeric_max, w);
  set_freeze = λ b app w. (ok tt, w);
}

abbrev pub th : PolicyThresholds hundredths
th = record { t1 = 40; t2 = 60; t3 = 80; margin = 5; dwell_n = pos 3 }

abbrev Ctx : Type 0
Ctx = Context hundredths quiet (SecurityAwarePolicy hundredths quiet)

abbrev pub mapped : AppMapping hundredths
mapped = record (make_app_mapping hundredths (make_app (pos 42) integrated)) {
  pu_vec = (pos 0, pos 1) ∷ [];
  cpu_max = 110;
  security_level = high;
}

abbrev start : Ctx
start = record {
  mapping = mapped;
  own = make_security_aware_policy hundredths quiet 4 th;
  world = tt;
}

abbrev frozen : Ctx
frozen = record start {
  mapping = record mapped {
    sec_state = record { state = quarantine; below_count = 0 };
    quarantine = true;
  };
}

-- A limit of 4 GiB is read back as 0.
get-set_max_memory_example :
    (get_max_memory hundredths quiet
        (record start { mapping = record mapped { max_memory = pos 0 } })
      ≡ (
        ok (to_uint64 (to_int (pos 4294967296))),
        record start { mapping = record mapped { max_memory = pos 0 } },
      ))
    × ((to_uint64 (to_int (pos 4294967296)) ≡ 4294967296) ↔ (4294967296 < 2 ^ 31))
unfolding set_max_memory to_int
get-set_max_memory_example =
    get-set_max_memory hundredths quiet 4294967296 start
      (record start { mapping = record mapped { max_memory = pos 0 } }) (omega arith) refl refl

truncated : (x : hundredths.F) → hundredths.trunc x ≤ℤ pos 2147483647
truncated x = omega arith

quota_bounds_example :
    (pos 126 ≤ℤ hundred (Cpuset.count_pus ((pos 0, pos 1) ∷ [])))
    × (hundred (Cpuset.count_pus ((pos 0, pos 1) ∷ []) -ℤ pos 1) ≤ℤ pos 100)
unfolding increase_cpu_quota decrease_cpu_quota get_cpu_max_cached konro.AppMapping.count_pus
    to_uint64 hundred Cpuset.count_pus konro.Base.Int.◌+ℤ◌ konro.Base.Int.to_short ◌-ℤ◌
    set_cpu_max_cached
quota_bounds_example =
    quota_bounds hundredths quiet 15 start
      (record start { mapping = record mapped { cpu_max = 126 } })
      (record start { mapping = record mapped { cpu_max = 100 } }) truncated (omega arith)
      (omega arith) (λ n h. omega arith) refl refl

abbrev alerted : Ctx
alerted = (security_alert hundredths quiet 75 start).1

security_alert-Demands_example :
    (alerted.mapping.app ≡ start.mapping.app)
    × (alerted.mapping.sec_state ≡ tracked hundredths quiet 75 start)
    × ((((rank alerted.mapping.sec_state.state == rank start.mapping.sec_state.state) ≡ true)
          × (alerted.world ≡ start.world))
        ⊎ Demands hundredths quiet alerted.mapping.sec_state.state start.world alerted)
unfolding security_alert konro.AppMapping.set_sai konro.SecState.step set_cpu_max_cached
    set_pu_vector konro.AppMapping.get_current_pids to_int konro.AppMapping.set_max_pids
security_alert-Demands_example = security_alert-Demands hundredths quiet 75 start alerted refl

abbrev thawed : Ctx
thawed = (clear_app hundredths quiet frozen).1

clear_app-Demands_example :
    (thawed.mapping.app ≡ frozen.mapping.app)
    × (thawed.mapping.sec_state ≡ cleared)
    × (thawed.mapping.sai ≡ 0)
    × (w : Unit {0}) × (quiet.set_freeze false frozen.mapping.app frozen.world ≡ (ok tt, w))
    × Demands hundredths quiet observe w thawed
unfolding clear_app konro.AppMapping.set_quarantine konro.AppMapping.set_sai set_cpu_max_cached
    konro.AppMapping.set_max_pids set_pu_vector
clear_app-Demands_example = clear_app-Demands hundredths quiet frozen thawed refl

-- The distance of two PUs by their numbers.
abbrev apart : ℤ → ℤ → ℤ
apart (pos i) (pos j) = pos ((i - j) + (j - i))
apart (pos i) (negsuc j) = negsuc 0
apart (negsuc i) q = negsuc 0
