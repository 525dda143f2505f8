-- ===== src/KonroManager.antt =====
-- rm/src/konromanager.cpp and common/src/config.cpp: the configuration with its defaults, and the
-- threads that the main thread starts, stops and joins. Reading the file is the ini library's part: a
-- configuration is the values by section and key. std::stof is a parameter.
pub mod Wiring
pub mod Settings
use Prim.Native.String.{String}
use konro.Base.{Bool, ◌&&◌, not, Option, none, some, List, [], ◌∷◌, ◌++◌, if◌then◌else◌}
use konro.Base.Int.{ℤ, pos, ltb_ℤ, eqb_ℤ}
use konro.Float.{Float}
use konro.NumericValue.{skip_spaces, same_text}
use konro.Sai.{SaiWeights}
use konro.Streams.{read_int}
use konro.Text.{Bytes, codes}

-- `internal` of Config, by section and key; a later value of a key replaces an earlier one.
abbrev pub Config : Type 0
Config = List ((Bytes × Bytes) × Bytes)

-- internal.at({section, key}); `none` is the exception for a missing directive.
unfoldable pub read : Bytes → Bytes → Config → Option Bytes
read section key [] = none
read section key (((s, k), value) ∷ config) =
    if same_text s section && same_text k key then some value else read section key config

-- internal[{section, key}] = value
unfoldable pub assign : Bytes → Bytes → Bytes → Config → Config
assign section key value [] = ((section, key), value) ∷ []
assign section key value (((s, k), old) ∷ config) =
    if same_text s section && same_text k key
    then ((s, k), value) ∷ config
    else ((s, k), old) ∷ assign section key value config

-- std::stoi
unfoldable pub stoi : Bytes → Option ℤ
unfolding read_int skip_spaces
stoi s = read_int (skip_spaces s)

-- configRead: every exception leads to the default.
abbrev pub or_default : {A : Type 0} → Option A → A → A
or_default none a = a
or_default (some b) a = b

unfoldable pub read_text : Config → String → String → String → Bytes
unfolding read
read_text config section key otherwise =
    or_default (read (codes section) (codes key) config) (codes otherwise)

unfoldable pub read_int_or : Config → String → String → ℤ → ℤ
unfolding read stoi
read_int_or config section key otherwise = elim (read (codes section) (codes key) config) [
  | none ↦ otherwise
  | some value ↦ or_default (stoi value) otherwise
]

module _ (fl : Float) (stof : Bytes → Option fl.F) where
  open fl use {F, literal}

  unfoldable pub read_float : Config → String → String → F → F
  unfolding read
  read_float config section key otherwise = elim (read (codes section) (codes key) config) [
    | none ↦ otherwise
    | some value ↦ or_default (stof value) otherwise
  ]

  pub record Configuration : Type 0 where
    pub policy_name : Bytes
    pub timer_seconds : ℤ
    pub monitor_period : ℤ
    pub cpu_module_names : Bytes
    pub battery_module_names : Bytes
    pub http_listen_host : Bytes
    pub http_listen_port : ℤ
    pub change_container_cgroup : Bool
    pub change_kubernetes_cgroup : Bool
    pub security_period : ℤ
    pub weights : SaiWeights fl
    pub ewma_alpha : F
    pub publish_threshold : F
    pub t1 : F
    pub t2 : F
    pub t3 : F
    pub dwell : ℤ

  -- A configuration file that is missing leaves the members without a value; here it is found.
  unfoldable pub load_configuration : Config → Configuration
  unfolding read_text read_int_or read_float
  load_configuration config = record {
    policy_name = read_text config "policy" "policy" "NoPolicy";
    timer_seconds = read_int_or config "policytimer" "timerseconds" (pos 30);
    monitor_period = read_int_or config "platformmonitor" "monitorperiod" (pos 20);
    cpu_module_names =
        read_text config "platformmonitor" "kernelcpumodulenames" "coretemp,k10temp,k8temp,cputemp";
    battery_module_names = read_text config "platformmonitor" "kernelbatterymodulenames" "BAT";
    http_listen_host = read_text config "http" "listenhost" "localhost";
    http_listen_port = read_int_or config "http" "listenport" (pos 8080);
    change_container_cgroup =
        not (eqb_ℤ (read_int_or config "container" "changecontainercgroup" (pos 1)) (pos 0));
    change_kubernetes_cgroup =
        not (eqb_ℤ (read_int_or config "kubernetes" "changekubernetescgroup" (pos 1)) (pos 0));
    security_period = read_int_or config "securitymonitor" "securityperiod" (pos 10);
    weights = record {
      fanout = read_float config "securitymonitor" "weight_fanout" (literal 30 100);
      half_open = read_float config "securitymonitor" "weight_halfopen" (literal 25 100);
      fork_rate = read_float config "securitymonitor" "weight_forkrate" (literal 15 100);
      new_exec = read_float config "securitymonitor" "weight_newexec" (literal 20 100);
      cpu_burst = read_float config "securitymonitor" "weight_cpuburst" (literal 10 100);
      egress = read_float config "securitymonitor" "weight_egress" (literal 15 100);
      mem_growth = read_float config "securitymonitor" "weight_mem" (literal 10 100);
      raw_socket = read_float config "securitymonitor" "weight_rawsocket" (literal 20 100);
    };
    ewma_alpha = read_float config "securitymonitor" "ewma_alpha" (literal 30 100);
    publish_threshold = read_float config "securitymonitor" "publish_threshold" (literal 40 100);
    t1 = read_float config "securitypolicy" "threshold_t1" (literal 40 100);
    t2 = read_float config "securitypolicy" "threshold_t2" (literal 60 100);
    t3 = read_float config "securitypolicy" "threshold_t3" (literal 80 100);
    dwell = read_int_or config "securitypolicy" "dwell_periods" (pos 3);
  }

pub data Thread : Type 0 where
  workload_manager policy_manager policy_timer platform_monitor security_monitor http : Thread

-- What `run` does with the threads, and the process listener that it runs itself.
pub data Action : Type 0 where
  starts : Thread → Action
  listens : Action
  stops : Thread → Action
  joins : Thread → Action

-- An action on a thread that the configuration leaves out is not done.
abbrev pub when : Bool → Action → List Action
when t a = if t then a ∷ [] else []

unfoldable pub start_threads : Bool → Bool → List Action
start_threads timer security =
    starts workload_manager ∷ starts policy_manager ∷ when timer (starts policy_timer)
    ++ starts platform_monitor ∷ when security (starts security_monitor)
    ++ starts http ∷ []

unfoldable pub stop_threads : Bool → Bool → List Action
stop_threads timer security =
    stops http ∷ when timer (stops policy_timer)
    ++ stops platform_monitor ∷ when security (stops security_monitor)
    ++ stops workload_manager ∷ stops policy_manager ∷ []

unfoldable pub join_threads : Bool → Bool → List Action
join_threads timer security =
    joins http ∷ when timer (joins policy_timer)
    ++ joins platform_monitor ∷ when security (joins security_monitor)
    ++ joins workload_manager ∷ joins policy_manager ∷ []

unfoldable pub run : ℤ → ℤ → List Action
unfolding start_threads stop_threads join_threads
run timer_seconds security_period =
    let timer = ltb_ℤ (pos 0) timer_seconds in
    let security = ltb_ℤ (pos 0) security_period in
    start_threads timer security
    ++ listens ∷ stop_threads timer security
    ++ join_threads timer security
