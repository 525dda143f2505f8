-- ===== src/Examples/Monitoring.antt =====
-- The security monitor on an app of one process, and its anomaly index.
use konro.Base.{ℕ, ◌≡◌, refl, Bool, true, false, Option, none, some, List, [], ◌∷◌, ◌++◌}
use konro.Base.Int.{pos}
use konro.App.{App, make_app, standalone}
use konro.Cgroup.{CgroupConfig, do_not_move}
use konro.Effect.{ok}
use konro.Float.{hundredths}
use konro.Os.{Os, done}
use konro.ProcFs.Processes.{get_cgroup_pids}
use konro.Sai.{default_weights, compute_sai}
use konro.Sai.Bounds.{IsSai, compute_sai-IsSai}
use konro.SecurityMonitor.{MonitorConfig, SecurityEvent, Sample, new_baseline}
use konro.SecurityMonitor.Scan.{SecurityMonitor, scan_app}
use konro.SecurityMonitor.RawSockets.{raw_factors, AtMostOnce, raw_factors-AtMostOnce}
use konro.SecurityMonitor.Reports.{scan_app-publishes}
use konro.Text.{codes}

-- A system in which every file holds the line 42.
abbrev pub forty_two : Os
forty_two = record {
  World = ℕ;
  read_lines = λ path w. (some (codes "42" ∷ []), w);
  read_link = λ n path w. (none, w);
  list_dir = λ path w. (none, w);
  entries = λ path w. (none, w);
  file_exists = λ path w. (true, w);
  dir_exists = λ path w. (true, w);
  inode_of = λ path w. (none, w);
  write = λ path text w. (done, w);
  mkdir = λ path w. (true, w);
  rmdir = λ path w. (true, w);
}

abbrev pub cgroup : CgroupConfig
cgroup = record {
  base_dir = codes "/sys/fs/cgroup";
  change_container_cgroup = false;
  change_kubernetes_cgroup = false;
}

abbrev pub shell : App
shell = make_app (pos 42) standalone

abbrev pub settings : MonitorConfig hundredths
settings = record { security_period = 10; weights = default_weights hundredths; alpha = 30 }

abbrev pub monitor : SecurityMonitor hundredths forty_two
monitor = record { world = 0; apps = (pos 1, shell) ∷ []; baselines = []; published = [] }

shell-moves : do_not_move forty_two cgroup shell.app_type ≡ false
unfolding do_not_move
shell-moves = refl

one_process :
    get_cgroup_pids forty_two cgroup shell 0 ≡ (ok (record { pid = pos 42; starttime = 0 } ∷ []), 0)
unfolding get_cgroup_pids konro.Base.Int.to_int konro.Text.scan
one_process = refl

scan_app-publishes_example :
    (e : SecurityEvent hundredths) × (m' : SecurityMonitor hundredths forty_two) × (scan_app
        hundredths forty_two cgroup settings shell monitor
      ≡ (ok tt, m'))
    × (m'.published ≡ [] ++ e ∷ [])
    × (e.app ≡ shell)
scan_app-publishes_example =
    scan_app-publishes hundredths forty_two cgroup shell shell-moves settings monitor
      (record { pid = pos 42; starttime = 0 } ∷ []) 0 one_process

compute_sai-IsSai_example :
    IsSai hundredths
      (compute_sai hundredths (default_weights hundredths) (default_weights hundredths))
compute_sai-IsSai_example =
    compute_sai-IsSai hundredths (default_weights hundredths) (default_weights hundredths)

-- Raw sockets are seen in every scan.
abbrev pub seen : Sample
seen = record {
  connections = record { dests = []; syn_sent = 0; total = 0 };
  tx_bytes = 0;
  processes = 1;
  exes = [];
  raw_sockets = true;
  cpu_usec = 0;
  mem_current = 0;
}

abbrev pub six_scans : List Sample
six_scans = seen ∷ seen ∷ seen ∷ seen ∷ seen ∷ seen ∷ []

raw_factors-AtMostOnce_example :
    AtMostOnce hundredths settings
      (raw_factors hundredths settings six_scans (new_baseline hundredths))
raw_factors-AtMostOnce_example =
    raw_factors-AtMostOnce hundredths settings six_scans (new_baseline hundredths)
