-- ===== src/Examples/Managers.antt =====
-- Managers that handle events one by one, under two policies and over the cgroups.
use konro.Base.{◌≡◌, ◌≢◌, ◌⊎◌, refl, some, List, [], ◌∷◌, All, true, false}
use konro.Base.Int.{ℤ, pos}
use konro.App.{App, integrated, make_app, set_cgroup_dir}
use konro.AppMapping.{AppMapping, make_app_mapping}
use konro.Cgroup.{do_not_move, konro_app_dir}
use konro.Cgroup.Platform.{cgroup_control, add-konro_app_dir}
use konro.Float.{hundredths}
use konro.PlatformDescription.{Chain}
use konro.PolicyManager.{
  SecurityFactors, min_cores_policy, security_aware_policy, Event, add_event, feedback_event,
  security_event, PolicyManager,
}
use konro.PolicyManager.Preserved.{run}
use konro.Policies.Factory.{make_policy, make_min_cores_policy, make_policy_manager}
use konro.Policies.SecurityAware.{make_security_aware_policy}
use konro.Policies.SecurityAware.Flag.{IsFlagged}
use konro.Policies.SecurityAware.Instance.{security_aware_policy_instance}
use konro.Policies.SecurityAware.Invariant.{HeedsFeedback, run-IsFlagged}
use konro.Policies.Uncontained.{IsUncontained, run-IsUncontained}
use konro.SecState.{quarantine}
use konro.WorkloadManager as Workload
use konro.WorkloadManager.{IPlatformControl, WorkloadManager, add}
use konro.Examples.Kernel.{one_file, plain, shell, unit}
use konro.Examples.Policies.{quiet, th, mapped}

abbrev pub factors : SecurityFactors hundredths
factors = record {
  fanout = 90;
  half_open = 0;
  fork_rate = 80;
  new_exec = 0;
  cpu_burst = 0;
  egress = 0;
  mem_growth = 0;
  raw_socket = 100;
}

-- An alert of SAI 0.95, and then the app's feedback.
abbrev alert_then_feedback : List (Event hundredths)
alert_then_feedback =
    security_event mapped.app 95 factors "raw-socket" ∷ feedback_event mapped.app (pos 30) ∷ []

abbrev tracking :
    AppMapping hundredths
    → PolicyManager hundredths (security_aware_policy_instance hundredths quiet)
tracking m = record {
  apps = m ∷ [];
  policy_state = (make_security_aware_policy hundredths quiet 4 th, tt);
}

abbrev quarantined : AppMapping hundredths
quarantined = record mapped {
  sai = 95;
  sec_state = record { state = quarantine; below_count = 0 };
  quarantine = true;
}

run-quarantined :
    run hundredths
      (security_aware_policy_instance hundredths quiet)
      alert_then_feedback
      (tracking mapped)
    ≡ some (tracking quarantined)
unfolding run konro.PolicyManager.process_event konro.PolicyManager.process_security_event
    konro.Base.OrderedSet.find konro.Policies.SecurityAware.security_alert konro.AppMapping.set_sai
    konro.SecState.step konro.AppMapping.set_quarantine konro.PolicyManager.process_feedback_event
    konro.Policies.SecurityAware.feedback
run-quarantined = refl

run-IsFlagged_example :
    All (λ m. IsFlagged hundredths quiet m × HeedsFeedback hundredths quiet m) (quarantined ∷ [])
run-IsFlagged_example =
    run-IsFlagged hundredths quiet alert_then_feedback (tracking mapped) (tracking quarantined)
      (refl, tt) run-quarantined

abbrev one_pu : List Chain
one_pu = unit 0 10 ∷ []

abbrev guest : App
guest = make_app (pos 42) integrated

abbrev add_then_alert : List (Event hundredths)
add_then_alert = add_event guest ∷ security_event guest 95 factors "raw-socket" ∷ []

abbrev placed : AppMapping hundredths
placed = record (make_app_mapping hundredths guest) { pu_vec = (pos 0, pos 0) ∷ []; sai = 95 }

not_security_aware : min_cores_policy ≢ security_aware_policy
not_security_aware h = cc

abbrev placing :
    PolicyManager hundredths
      (make_policy hundredths quiet one_pu (λ n. 0) th tt min_cores_policy).policy
unfolding make_policy
placing = record {
  apps = placed ∷ [];
  policy_state = (record (make_min_cores_policy one_pu) { apps_on_pu = pos 1 ∷ [] }, tt);
}

run-placing :
    run hundredths
      (make_policy hundredths quiet one_pu (λ n. 0) th tt min_cores_policy).policy
      add_then_alert
      (make_policy_manager hundredths quiet one_pu (λ n. 0) th tt min_cores_policy)
    ≡ some placing
unfolding run konro.PolicyManager.process_event konro.PolicyManager.process_add_event
    konro.Base.OrderedSet.find make_policy konro.Policies.MinCores.add_app
    konro.Base.OrderedSet.insert make_min_cores_policy konro.AppMapping.set_pu_vector
    konro.Policies.Counters.increment konro.Base.Int.to_short konro.Policies.Counters.min_index
    konro.PlatformDescription.get_num_processing_units konro.PolicyManager.process_security_event
    konro.Base.Int.◌+ℤ◌ placing
run-placing = refl

run-IsUncontained_example : All IsUncontained placing.apps
run-IsUncontained_example =
    run-IsUncontained hundredths quiet one_pu (λ n. 0) th tt min_cores_policy add_then_alert placing
      not_security_aware run-placing

abbrev pub control : IPlatformControl
control = cgroup_control one_file plain (λ w pid. "sh")

abbrev no_apps : WorkloadManager control
no_apps = record {
  platform = [];
  change_container_cgroup = false;
  change_kubernetes_cgroup = false;
  apps = [];
  bus = [];
}

shell-moves : do_not_move one_file plain shell.app_type ≡ false
unfolding do_not_move
shell-moves = refl

add-konro_app_dir_example :
    (w : WorkloadManager control) × (add control shell no_apps ≡ some w)
    × ((w.bus ≡ []) × (w.apps ≡ [])
        ⊎ (w.bus
            ≡ Workload.add_event (set_cgroup_dir (konro_app_dir one_file plain (pos 7)) shell)
              ∷ []))
add-konro_app_dir_example =
    add-konro_app_dir one_file plain (λ w pid. "sh") shell no_apps shell-moves
