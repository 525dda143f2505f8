-- ===== src/WorkloadManager.antt =====
-- rm/workloadmanager/workloadmanager.h and workloadmanager.cpp: the set of managed applications, and
-- the handlers of the events of the kernel's process connector and of the HTTP interface.
--
-- What the handlers do outside of the object is an argument: `process_name` reads /proc, and the
-- platform control is the interface of rm/platformcontrol/iplatformcontrol.h. What is published on
-- the bus is kept in order. Logging has no effect on the state.
pub mod ProcessName
pub mod Tracking
use Prim.Native.String.{String}
use konro.Base.{
  ℕ, ◌≡◌, refl, Bool, true, false, not, ◌&&◌, ◌||◌, Option, none, some, List, [], ◌∷◌, ◌++◌, ◌==◌,
  if◌then◌else◌, is_some,
}
use konro.Base.Int.{ℤ, eqb_ℤ}
use konro.Base.OrderedSet.{insert, find, erase}
use konro.App.{App, AppType, container, kubernetes, make_app, set_name}

-- What `addApplication` does: it adds the app, and may set its cgroup directory; it refuses it; or it
-- throws an exception, which nothing catches.
pub data Added (P : Type 0) : Type 0 where
  added : App → P → Added P
  refused : P → Added P
  threw : Added P

-- rm/platformcontrol/iplatformcontrol.h, over the state of the platform.
pub record IPlatformControl : Type 1 where
  pub P : Type 0
  pub add_application : App → P → Added P
  pub remove_application : App → P → P
  pub process_name : P → ℤ → String

-- What is published.
pub data Published : Type 0 where
  add_event : App → Published
  remove_event : App → Published
  feedback_event : App → ℤ → Published

-- What is received: ForkEvent, ExecEvent and ExitEvent with the pids of their proc_event,
-- AddRequestEvent, FeedbackRequestEvent, and any other event.
pub data Received : Type 0 where
  fork : ℤ → ℤ → Received
  exec : ℤ → Received
  exit : ℤ → Received
  add_request : App → Received
  feedback_request : ℤ → ℕ → ℤ → Received
  other_event : Received

abbrev pub app_key : App → ℤ
app_key app = app.pid

-- The iterator loop of `findAppByNsPid`.
unfoldable pub find_app_by_ns_pid : ℤ → ℕ → List App → Option App
find_app_by_ns_pid ns_pid ns [] = none
find_app_by_ns_pid ns_pid ns (app ∷ apps) =
    if eqb_ℤ app.ns_pid ns_pid && app.ns == ns then some app else find_app_by_ns_pid ns_pid ns apps

-- `app->setName` on the app with the pid, which the set shares.
unfoldable pub rename : ℤ → String → List App → List App
unfolding set_name
rename pid name [] = []
rename pid name (app ∷ apps) =
    (if eqb_ℤ app.pid pid then set_name name app else app) ∷ rename pid name apps

is_container : AppType → Bool
is_container container = true
is_container _ = false

is_kubernetes : AppType → Bool
is_kubernetes kubernetes = true
is_kubernetes _ = false

module _ (pc : IPlatformControl) where
  open pc use {P, add_application, remove_application, process_name}

  pub record WorkloadManager : Type 0 where
    pub platform : P
    pub change_container_cgroup : Bool
    pub change_kubernetes_cgroup : Bool
    pub apps : List App
    pub bus : List Published

  unfoldable pub publish : Published → WorkloadManager → WorkloadManager
  publish event w = record w { bus = w.bus ++ event ∷ [] }

  unfoldable pub find_app_by_pid : ℤ → WorkloadManager → Option App
  find_app_by_pid pid w = find app_key pid w.apps

  unfoldable pub is_in_konro : ℤ → WorkloadManager → Bool
  unfolding find_app_by_pid
  is_in_konro pid w = is_some (find_app_by_pid pid w)

  -- `add` behind the call of the platform control. `none` is the exception.
  unfoldable pub settle : Added P → WorkloadManager → Option WorkloadManager
  unfolding publish
  settle (added app' p) w =
      some (publish (add_event app') (record w { platform = p; apps = insert app_key app' w.apps }))
  settle (refused p) w = some (record w { platform = p })
  settle threw w = none

  unfoldable pub add : App → WorkloadManager → Option WorkloadManager
  unfolding settle
  add app w = settle (add_application app w.platform) w

  unfoldable pub remove : ℤ → WorkloadManager → WorkloadManager
  unfolding find_app_by_pid publish
  remove pid w = elim (find_app_by_pid pid w) [
    | none ↦ w
    | some app ↦
        let w' = publish (remove_event app) w in
        record w' {
          platform = remove_application app w'.platform;
          apps = erase app_key app.pid w'.apps;
        }
  ]

  -- A child of an app that stays in the cgroup of its container is not tracked by itself.
  unfoldable pub skips_child : AppType → WorkloadManager → Bool
  unfolding is_container is_kubernetes
  skips_child parent_type w =
      is_container parent_type && not w.change_container_cgroup
      || is_kubernetes parent_type && not w.change_kubernetes_cgroup

  unfoldable pub process_fork_event : ℤ → ℤ → WorkloadManager → Option WorkloadManager
  unfolding find_app_by_pid skips_child set_name add
  process_fork_event parent_pid child_pid w = elim (find_app_by_pid parent_pid w) [
    | none ↦ some w
    | some parent ↦
        if skips_child parent.app_type w
        then some w
        else add (set_name (process_name w.platform child_pid) (make_app child_pid parent.app_type))
            w
  ]

  unfoldable pub process_exec_event : ℤ → WorkloadManager → WorkloadManager
  unfolding find_app_by_pid rename
  process_exec_event pid w = elim (find_app_by_pid pid w) [
    | none ↦ w
    | some app ↦ record w { apps = rename pid (process_name w.platform pid) w.apps }
  ]

  unfoldable pub process_exit_event : ℤ → WorkloadManager → WorkloadManager
  unfolding is_in_konro remove
  process_exit_event pid w = if is_in_konro pid w then remove pid w else w

  unfoldable pub process_add_request_event : App → WorkloadManager → Option WorkloadManager
  unfolding is_in_konro add
  process_add_request_event app w = if not (is_in_konro app.pid w) then add app w else some w

  -- Namespace 0 is Konro's own.
  unfoldable pub feedback_target : ℤ → ℕ → WorkloadManager → Option App
  unfolding find_app_by_pid find_app_by_ns_pid
  feedback_target pid ns w =
      if ns == 0 then find_app_by_pid pid w else find_app_by_ns_pid pid ns w.apps

  unfoldable pub process_feedback_request_event : ℤ → ℕ → ℤ → WorkloadManager → WorkloadManager
  unfolding feedback_target publish
  process_feedback_request_event pid ns feedback w = elim (feedback_target pid ns w) [
    | none ↦ w
    | some app ↦ publish (feedback_event app feedback) w
  ]

  unfoldable pub process_event : Received → WorkloadManager → Option WorkloadManager
  process_event (fork parent_pid child_pid) w = process_fork_event parent_pid child_pid w
  process_event (exec pid) w = some (process_exec_event pid w)
  process_event (exit pid) w = some (process_exit_event pid w)
  process_event (add_request app) w = process_add_request_event app w
  process_event (feedback_request pid ns feedback) w =
      some (process_feedback_request_event pid ns feedback w)
  process_event other_event w = some w
