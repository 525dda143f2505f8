-- ===== src/SecurityMonitor.antt =====
-- rm/securitymonitor/securitymonitor.h and securitymonitor.cpp: the baselines of the apps, and what a
-- scan makes of what it has read. The set of apps is in the order of the objects' addresses, which the
-- code's `shared_ptr` keys compare.
pub mod Scan
pub mod Reports
pub mod RawSockets
use konro.Base.{
  ℕ, ◌+◌, ◌-◌, Bool, true, false, not, ◌&&◌, Option, none, some, List, [], ◌∷◌, ◌++◌, length, leb,
  ltb, if◌then◌else◌,
}
use konro.Base.Int.{ℤ, pos, eqb_ℤ}
use konro.Base.OrderedSet.{insert, find, erase}
use konro.App.{App}
use konro.Cgroup.{CgroupConfig}
use konro.Effect.{M, Exit, ok, exception, undefined, continue, ◌>>=◌, ◌>>◌, pure, modify, attempt}
use konro.Float.{Float}
use konro.Os.{Os}
use konro.PolicyManager.{SecurityFactors}
use konro.ProcFs.{PidSample, no_sample, keys, has_text, insert_text, Connections}
use konro.ProcFs.Processes.{
  get_cgroup_pids, socket_inode_to_pid, count_connections, has_raw_sockets, get_process_exes,
  get_cpu_usec, get_tx_bytes, get_mem_current,
}
use konro.Sai.{Ewma, new_ewma, ewma_update, warming, deviation, SaiWeights, compute_sai}
use konro.Streams.{is_empty}
use konro.Text.{Bytes, codes}

-- An App object: its address, and what it holds.
abbrev pub AppPtr : Type 0
AppPtr = ℤ × App

abbrev pub address : AppPtr → ℤ
address p = p.0

abbrev pub first_sample : List PidSample → PidSample
first_sample [] = no_sample
first_sample (s ∷ ss) = s

-- What one scan reads, in the order of the reads.
pub record Sample : Type 0 where
  pub connections : Connections
  pub tx_bytes : ℕ
  pub processes : ℕ
  pub exes : List Bytes
  pub raw_sockets : Bool
  pub cpu_usec : ℕ
  pub mem_current : ℕ

module _ (fl : Float) where
  open fl use {F, literal, of_ℕ, div, flt}

  pub record AppBaseline : Type 0 where
    pub fanout : Ewma fl
    pub half_open : Ewma fl
    pub fork_rate : Ewma fl
    pub cpu_burst : Ewma fl
    pub egress : Ewma fl
    pub mem_growth : Ewma fl
    pub known_execs : List Bytes
    pub raw_socket_fired : Bool
    pub last_cpu_usec : ℕ
    pub cpu_init : Bool
    pub last_tx_bytes : ℕ
    pub egress_init : Bool
    pub last_mem_current : ℕ
    pub mem_init : Bool

  abbrev pub new_baseline : AppBaseline
  new_baseline = record {
    fanout = new_ewma fl;
    half_open = new_ewma fl;
    fork_rate = new_ewma fl;
    cpu_burst = new_ewma fl;
    egress = new_ewma fl;
    mem_growth = new_ewma fl;
    known_execs = [];
    raw_socket_fired = false;
    last_cpu_usec = 0;
    cpu_init = false;
    last_tx_bytes = 0;
    egress_init = false;
    last_mem_current = 0;
    mem_init = false;
  }

  pub record SecurityEvent : Type 0 where
    pub app : App
    pub sai : F
    pub factors : SecurityFactors fl
    pub labels : Bytes

  pub record MonitorConfig : Type 0 where
    pub security_period : ℕ
    pub weights : SaiWeights fl
    pub alpha : F

  -- The threshold of publication only decides what is logged.
  unfoldable pub set_sai_config : SaiWeights fl → F → MonitorConfig → MonitorConfig
  set_sai_config weights alpha config = record config { weights = weights; alpha = alpha }

  -- A step of one baseline: the deviation of the value, and the baseline with the value in it.
  abbrev pub observe : F → F → Ewma fl → F × Ewma fl
  observe alpha x e = (deviation fl x e, ewma_update fl x alpha e)

  -- A counter's rate since the last scan, 0 where the counter fell.
  unfoldable pub rate : ℕ → ℕ → ℕ → F
  rate period now last = if leb last now then div (of_ℕ (now - last)) (of_ℕ period) else literal 0 1

  -- No deviation is reported, and nothing is learned, without an earlier scan.
  unfoldable pub observe_rate : MonitorConfig → Bool → ℕ → ℕ → Ewma fl → F × Ewma fl
  unfolding rate deviation ewma_update
  observe_rate config init now last e =
      if init && ltb 0 config.security_period
      then observe config.alpha (rate config.security_period now last) e
      else (literal 0 1, e)

  -- The loop over the executables: the known ones, whether a new one fires, and the labels.
  unfoldable pub check_execs :
      Bool → List Bytes → List Bytes × Bool × Bytes → List Bytes × Bool × Bytes
  check_execs warm [] r = r
  check_execs warm (exe ∷ exes) (known, fired, labels) = check_execs warm exes (
      if is_empty exe
      then (known, fired, labels)
      else if has_text exe known
      then (known, fired, labels)
      else if warm
      then (insert_text exe known, fired, labels)
      else (insert_text exe known, true, labels ++ codes "exec:" ++ exe ++ codes " "))

  abbrev pub one_if : Bool → F
  one_if fires = if fires then literal 1 1 else literal 0 1

  -- Whether raw sockets are reported now.
  abbrev pub raw_fires : Bool → Sample → AppBaseline → Bool
  raw_fires warm s base = s.raw_sockets && not warm && not base.raw_socket_fired

  unfoldable pub half_open_ratio : Connections → F
  half_open_ratio c = if ltb 0 c.total then div (of_ℕ c.syn_sent) (of_ℕ c.total) else literal 0 1

  -- A factor's label, if the factor is above 0.
  unfoldable pub label : F → Bytes → Bytes
  label x text = if flt (literal 0 1) x then text else []

  unfoldable pub factor_labels : SecurityFactors fl → Bytes
  unfolding label
  factor_labels f =
      label f.fanout (codes "fanout ")
      ++ label f.half_open (codes "scan ")
      ++ label f.cpu_burst (codes "cpu ")
      ++ label f.egress (codes "egress ")
      ++ label f.mem_growth (codes "mem ")
      ++ label f.raw_socket (codes "rawsock ")

  -- What `scanApp` makes of what it read: the baseline, the factors and the labels.
  unfoldable pub assess :
      MonitorConfig → Sample → AppBaseline → AppBaseline × SecurityFactors fl × Bytes
  unfolding observe_rate check_execs half_open_ratio factor_labels deviation ewma_update warming
  assess config s base =
      let fanout = observe config.alpha (of_ℕ (length s.connections.dests)) base.fanout in
      let half_open = observe config.alpha (half_open_ratio s.connections) base.half_open in
      let egress = observe_rate config base.egress_init s.tx_bytes base.last_tx_bytes base.egress in
      let fork_rate = observe config.alpha (of_ℕ s.processes) base.fork_rate in
      let warm = warming fl fork_rate.1 in
      let execs = check_execs warm s.exes (base.known_execs, false, []) in
      let raw = raw_fires warm s base in
      let cpu = observe_rate config base.cpu_init s.cpu_usec base.last_cpu_usec base.cpu_burst in
      let mem =
        observe_rate config base.mem_init s.mem_current base.last_mem_current base.mem_growth in
      let f : SecurityFactors fl = record {
        fanout = fanout.0;
        half_open = half_open.0;
        fork_rate = fork_rate.0;
        new_exec = one_if execs.1;
        cpu_burst = cpu.0;
        egress = egress.0;
        mem_growth = mem.0;
        raw_socket = one_if raw;
      } in
      let after : AppBaseline = record {
        fanout = fanout.1;
        half_open = half_open.1;
        fork_rate = fork_rate.1;
        cpu_burst = cpu.1;
        egress = egress.1;
        mem_growth = mem.1;
        known_execs = execs.0;
        raw_socket_fired = if raw then true else base.raw_socket_fired;
        last_cpu_usec = s.cpu_usec;
        cpu_init = true;
        last_tx_bytes = s.tx_bytes;
        egress_init = true;
        last_mem_current = s.mem_current;
        mem_init = true;
      } in
      (after, f, execs.2 ++ factor_labels f)

  -- baselines_: by pid, in increasing order.
  abbrev pub Baselines : Type 0
  Baselines = List (ℤ × AppBaseline)

  abbrev pub baseline_key : ℤ × AppBaseline → ℤ
  baseline_key b = b.0

  -- baselines_[pid], which makes an empty baseline where there is none.
  unfoldable pub touch : ℤ → Baselines → Baselines
  unfolding insert
  touch pid bs = insert baseline_key (pid, new_baseline) bs

  unfoldable pub baseline_of : ℤ → Baselines → AppBaseline
  unfolding find
  baseline_of pid bs = elim (find baseline_key pid bs) [ none ↦ new_baseline | some b ↦ b.1 ]

  unfoldable pub store : ℤ → AppBaseline → Baselines → Baselines
  store pid base [] = []
  store pid base ((p, old) ∷ bs) =
      if eqb_ℤ p pid then (p, base) ∷ bs else (p, old) ∷ store pid base bs

  -- find_if on the pid, and the erasure of the object that is found.
  unfoldable pub find_pid : ℤ → List AppPtr → Option AppPtr
  find_pid pid [] = none
  find_pid pid (a ∷ apps) = if eqb_ℤ a.1.pid pid then some a else find_pid pid apps
