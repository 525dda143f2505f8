-- ===== src/SecurityMonitor/Scan.antt =====
-- rm/securitymonitor/securitymonitor.cpp: the apps of the security monitor, the scan of an app, and the
-- event that it publishes. A lock makes each operation one step.
use konro.Base.{ℕ, Bool, none, some, List, [], ◌∷◌, ◌++◌, length, if◌then◌else◌}
use konro.Base.OrderedSet.{insert, erase}
use konro.App.{App}
use konro.Cgroup.{CgroupConfig}
use konro.Effect.{M, Exit, ok, exception, undefined, continue, ◌>>=◌, ◌>>◌, pure, attempt}
use konro.Float.{Float}
use konro.Os.{Os}
use konro.ProcFs.{PidSample, keys}
use konro.ProcFs.Processes.{
  get_cgroup_pids, socket_inode_to_pid, count_connections, has_raw_sockets, get_process_exes,
  get_cpu_usec, get_tx_bytes, get_mem_current,
}
use konro.Sai.{compute_sai}
use konro.SecurityMonitor.{
  AppPtr, address, first_sample, Sample, SecurityEvent, MonitorConfig, assess, Baselines,
  baseline_key, touch, baseline_of, store, find_pid,
}

module _ (fl : Float) (os : Os) where
  pub record SecurityMonitor : Type 0 where
    pub world : os.World
    pub apps : List AppPtr
    pub baselines : Baselines fl
    pub published : List (SecurityEvent fl)

  unfoldable pub process_add_event : AppPtr → SecurityMonitor → SecurityMonitor
  unfolding insert touch
  process_add_event app m = record m {
    apps = insert address app m.apps;
    baselines = touch fl app.1.pid m.baselines;
  }

  unfoldable pub process_remove_event : App → SecurityMonitor → SecurityMonitor
  unfolding find_pid erase
  process_remove_event app m = elim (find_pid fl app.pid m.apps) [
    | none ↦ m
    | some a ↦ record m {
      apps = erase address a.0 m.apps;
      baselines = erase (baseline_key fl) app.pid m.baselines;
    }
  ]

  -- The reads in /proc behind the list of the processes; the sample lacks the cgroup's numbers.
  unfoldable pub read_proc : List PidSample → os.World → (ℕ → ℕ → Sample) × os.World
  unfolding socket_inode_to_pid count_connections get_tx_bytes get_process_exes has_raw_sockets
  read_proc pids w =
      let netns = first_sample pids in
      let i = socket_inode_to_pid os pids [] w in
      let inodes = keys i.0 in
      let c = count_connections os inodes netns i.1 in
      let tx = get_tx_bytes os netns c.1 in
      let exes = get_process_exes os pids tx.1 in
      let raw = has_raw_sockets os inodes netns exes.1 in
      (
        (λ cpu mem. record {
          connections = c.0;
          tx_bytes = tx.0;
          processes = length pids;
          exes = exes.0;
          raw_sockets = raw.0;
          cpu_usec = cpu;
          mem_current = mem;
        }),
        raw.1,
      )

  unfoldable pub read_sample : CgroupConfig → App → List PidSample → M os.World Sample
  unfolding read_proc get_cpu_usec get_mem_current
  read_sample cgroup app pids w =
      let r = read_proc pids w in
      continue (get_cpu_usec os cgroup app r.1)
        (λ cpu. do mem ← get_mem_current os cgroup app; pure (r.0 cpu mem))

  unfoldable pub gather : CgroupConfig → App → M os.World Sample
  unfolding get_cgroup_pids read_sample
  gather cgroup app = do pids ← get_cgroup_pids os cgroup app; read_sample cgroup app pids

  -- The end of `scanApp`: the baseline is kept and the event is published.
  unfoldable pub report : MonitorConfig fl → App → Sample → SecurityMonitor → SecurityMonitor
  unfolding assess baseline_of store compute_sai
  report config app s m =
      let r = assess fl config s (baseline_of fl app.pid m.baselines) in
      record m {
        baselines = store fl app.pid r.0 m.baselines;
        published =
            m.published
            ++ record {
              app = app;
              sai = compute_sai fl r.1 config.weights;
              factors = r.1;
              labels = r.2;
            }
              ∷ [];
      }

  abbrev pub with_world : os.World → SecurityMonitor → SecurityMonitor
  with_world w m = record m { world = w }

  -- What `scanApp` does with the outcome of its reads.
  abbrev pub reported :
      MonitorConfig fl
      → App
      → SecurityMonitor
      → Exit Sample × os.World
      → Exit (Unit {0}) × SecurityMonitor
  reported config app m (ok s, w) = (ok tt, report config app s (with_world w m))
  reported config app m (exception, w) = (exception, with_world w m)
  reported config app m (undefined, w) = (undefined, with_world w m)

  unfoldable pub scan_app : CgroupConfig → MonitorConfig fl → App → M SecurityMonitor (Unit {0})
  unfolding gather report touch
  scan_app cgroup config app m =
      reported config app (record m { baselines = touch fl app.pid m.baselines })
        (gather cgroup app m.world)

  -- The loop of `run` over the apps; the Boolean values are the answers of `stopped()`.
  unfoldable pub scan_apps :
      CgroupConfig → MonitorConfig fl → List (Bool × AppPtr) → M SecurityMonitor (Unit {0})
  unfolding scan_app
  scan_apps cgroup config [] = pure tt
  scan_apps cgroup config ((stopped, app) ∷ apps) =
      let rest = scan_apps cgroup config apps in
      if stopped then pure tt else (do attempt (scan_app cgroup config app.1); rest)
