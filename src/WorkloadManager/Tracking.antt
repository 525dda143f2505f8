-- ===== src/WorkloadManager/Tracking.antt =====
-- The set of managed applications against what is published about it.
use konro.Base.{
  ℕ, ◌≡◌, inl, inr, refl, sym, Option, none, some, List, [], ◌∷◌, ◌++◌, append-nil, map, arith,
  Bool-cases, Option-cases,
}
use konro.Base.Int.{ℤ}
use konro.Base.OrderedSet.{insert_key, erase_key, map-insert, map-erase}
use konro.App.{App, set_name}
use konro.WorkloadManager.{
  IPlatformControl, Added, added, refused, threw, Published, add_event, remove_event,
  feedback_event, Received, fork, exec, exit, add_request, feedback_request, other_event, app_key,
  rename, WorkloadManager, publish, settle, add, remove, process_fork_event, process_exec_event,
  process_exit_event, process_add_request_event, process_feedback_request_event, feedback_target,
  skips_child, process_event, find_app_by_pid, is_in_konro,
}

-- The pids that a listener knows of after the published events.
abbrev pub heard_one : Published → List ℤ → List ℤ
heard_one (add_event app) pids = insert_key app.pid pids
heard_one (remove_event app) pids = erase_key app.pid pids
heard_one (feedback_event app feedback) pids = pids

abbrev pub heard : List Published → List ℤ → List ℤ
heard [] pids = pids
heard (e ∷ es) pids = heard es (heard_one e pids)

pub heard-append :
    (es fs : List Published) (pids : List ℤ) → heard (es ++ fs) pids ≡ heard fs (heard es pids)
heard-append [] fs pids = refl
heard-append (e ∷ es) fs pids = heard-append es fs (heard_one e pids)

map-rename :
    (pid : ℤ) (name : _) (apps : List App) → map app_key (rename pid name apps) ≡ map app_key apps
unfolding rename set_name
map-rename pid name [] = refl
map-rename pid name (app ∷ apps) = ground (arith, map-rename pid name apps)

module _ (pc : IPlatformControl) where
  open pc use {P, add_application}

  abbrev pub pids : WorkloadManager pc → List ℤ
  pids w = map app_key w.apps

  -- What w published since v makes a listener that knew v's pids know w's.
  pub record Follows (v w : WorkloadManager pc) : Type 0 where
    pub news : List Published
    pub published : w.bus ≡ v.bus ++ news
    pub tracked : pids w ≡ heard news (pids v)

  keeps : (w : WorkloadManager pc) → Follows w w
  keeps w = record { news = []; published = sym (append-nil w.bus); tracked = refl }

  -- Of the state, if the handler returns.
  abbrev pub Ensures : (WorkloadManager pc → Type 0) → Option (WorkloadManager pc) → Type 0
  Ensures Q none = Unit {0}
  Ensures Q (some w) = Q w

  settle-Follows : (r : Added P) (v : WorkloadManager pc) → Ensures (Follows v) (settle pc r v)
  unfolding settle publish
  settle-Follows (added app' p) v = record {
    news = add_event app' ∷ [];
    published = refl;
    tracked = map-insert app_key app' v.apps;
  }
  settle-Follows (refused p) v = record {
    news = [];
    published = sym (append-nil v.bus);
    tracked = refl;
  }
  settle-Follows threw v = tt

  add-Follows : (app : App) (v : WorkloadManager pc) → Ensures (Follows v) (add pc app v)
  unfolding add
  add-Follows app v = settle-Follows (add_application app v.platform) v

  remove-Follows : (pid : ℤ) (v : WorkloadManager pc) → Follows v (remove pc pid v)
  unfolding remove publish
  remove-Follows pid v = elim (Option-cases (find_app_by_pid pc pid v)) [
    | inl e ↦ rw (e, remove) (keeps v)
    | inr (app, e) ↦
        rw (e, remove)
          (record {
            news = remove_event app ∷ [];
            published = refl;
            tracked = map-erase app_key app.pid v.apps;
          })
  ]

  fork-Follows :
      (parent child : ℤ) (v : WorkloadManager pc)
      → Ensures (Follows v) (process_fork_event pc parent child v)
  unfolding process_fork_event
  fork-Follows parent child v = elim (Option-cases (find_app_by_pid pc parent v)) [
    | inl e ↦ rw (e, process_fork_event) (keeps v)
    | inr (app, e) ↦ elim (Bool-cases (skips_child pc app.app_type v)) [
      | inl s ↦ rw (e, process_fork_event, s) (keeps v)
      | inr s ↦ rw (e, process_fork_event, s) (add-Follows _ v)
    ]
  ]

  exec-Follows : (pid : ℤ) (v : WorkloadManager pc) → Follows v (process_exec_event pc pid v)
  unfolding process_exec_event
  exec-Follows pid v = elim (Option-cases (find_app_by_pid pc pid v)) [
    | inl e ↦ rw (e, process_exec_event) (keeps v)
    | inr (app, e) ↦
        rw (e, process_exec_event)
          (record {
            news = [];
            published = sym (append-nil v.bus);
            tracked = map-rename pid _ v.apps;
          })
  ]

  exit-Follows : (pid : ℤ) (v : WorkloadManager pc) → Follows v (process_exit_event pc pid v)
  unfolding process_exit_event
  exit-Follows pid v = elim (Bool-cases (is_in_konro pc pid v)) [
    | inl e ↦ rw e (remove-Follows pid v)
    | inr e ↦ rw e (keeps v)
  ]

  request-Follows :
      (app : App) (v : WorkloadManager pc)
      → Ensures (Follows v) (process_add_request_event pc app v)
  unfolding process_add_request_event
  request-Follows app v = elim (Bool-cases (is_in_konro pc app.pid v)) [
    | inl e ↦ rw e (keeps v)
    | inr e ↦ rw e (add-Follows app v)
  ]

  feedback-Follows :
      (pid : ℤ) (ns : ℕ) (feedback : ℤ) (v : WorkloadManager pc)
      → Follows v (process_feedback_request_event pc pid ns feedback v)
  unfolding process_feedback_request_event publish
  feedback-Follows pid ns feedback v = elim (Option-cases (feedback_target pc pid ns v)) [
    | inl e ↦ rw (e, process_feedback_request_event) (keeps v)
    | inr (app, e) ↦
        rw (e, process_feedback_request_event)
          (record { news = feedback_event app feedback ∷ []; published = refl; tracked = refl })
  ]

  process_event-Ensures :
      (e : Received) (v : WorkloadManager pc) → Ensures (Follows v) (process_event pc e v)
  unfolding process_event
  process_event-Ensures (fork parent child) v = fork-Follows parent child v
  process_event-Ensures (exec pid) v = exec-Follows pid v
  process_event-Ensures (exit pid) v = exit-Follows pid v
  process_event-Ensures (add_request app) v = request-Follows app v
  process_event-Ensures (feedback_request pid ns feedback) v = feedback-Follows pid ns feedback v
  process_event-Ensures other_event v = keeps v

  -- Whatever event is handled, if its handler returns, what is published tells of every change of
  -- the set of pids: a listener that knew the pids before and follows the new events knows the
  -- pids after.
  pub process_event-Follows :
      (e : Received) (v w : WorkloadManager pc) → process_event pc e v ≡ some w → Follows v w
  process_event-Follows e v w h = rw h at (process_event-Ensures e v)
