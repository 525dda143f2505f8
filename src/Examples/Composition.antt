-- ===== src/Examples/Composition.antt =====
-- The parts together: the wired bus, an alert down to the cgroup, a request of an application.
use Prim.Native.String.{String}
use text.Mathlib.Text.{◌==◌}
use konro.Base.{
  arith, ◌*◌, ◌/◌, ◌<◌, ◌≡◌, ◌↔◌, refl, min, false, Option, none, some, List, [], ◌∷◌, ◌++◌,
  is_some, if◌then◌else◌,
}
use konro.Base.Int.{pos, ltb_ℤ}
use konro.Base.OrderedSet.{find}
use konro.App.{integrated, critical}
use konro.AppMapping.{AppMapping}
use konro.Cgroup.{make_path, konro_app_dir, do_not_move}
use konro.Cgroup.Controllers.{cgroup_files}
use konro.Effect.{ok}
use konro.EventBus.{after}
use konro.Events.{EventType, BaseEvent, timer_type, add_type}
use konro.Events
use konro.Float.{hundredths}
use konro.KonroHttp.{Json, KonroHttp, add_request}
use konro.KonroManager.Wiring.{subscriptions, Inboxes, send}
use konro.KonroManager.Wiring.Relay.{wired, send_all, send_all-deliver}
use konro.KonroManager.Wiring.Routing.{publications, routed, send-routed}
use konro.Konrolib.{
  Value, number, unsigned, string, JsonWriter, add_message, compute_feedback, Process,
  get_pid_namespace, send_add_message,
}
use konro.Konrolib.Feedback.{compute_feedback_lem}
use konro.Konrolib.Requests.{as_int, as_namespace, as_text, MemberLaws, level_of}
use konro.Konrolib.Loopback.{loopback, send_add_message-loopback}
use konro.KonroHttp.Server.{HttpServer}
use konro.Namespaces.{map_pid}
use konro.Policies.SecurityAware.Sticky.{IsContained, run-IsContained}
use konro.PolicyManager.Preserved.{run}
use konro.PolicyManager.{
  Event, timer_event, feedback_event, security_event, process_event, mapping_key, PolicyManager,
  process_security_event,
}
use konro.Policies.NoPolicy.{no_policy_instance}
use konro.Policies.SecurityAware.{make_security_aware_policy}
use konro.Policies.SecurityAware.Frozen.{contained, process_security_event-frozen}
use konro.Policies.SecurityAware.Instance.{security_aware_policy_instance}
use konro.System.{deliver}
use konro.Text.{Bytes, codes}
use konro.WorkloadManager.{Published, add_event, remove_event}
use konro.Examples.Kernel.{one_file, Files, by_path, by_path_read, plain, shell}
use konro.Examples.Managers.{control, factors}
use konro.Examples.Policies.{mapped, th}

abbrev no_mail : Inboxes hundredths
no_mail = record { policy = []; workload = []; security = [] }

abbrev earlier : List EventType
earlier = timer_type ∷ add_type ∷ []

abbrev alarm : BaseEvent hundredths
alarm = Events.security_event shell 95 factors "raw-socket"

send-routed_example :
    (send hundredths alarm (after (subscriptions (pos 10) ++ publications earlier) []) no_mail).0
    ≡ routed hundredths (ltb_ℤ (pos 0) (pos 10)) alarm no_mail
send-routed_example = send-routed hundredths (pos 10) earlier alarm no_mail

abbrev come_and_gone : List Published
come_and_gone = add_event shell ∷ remove_event shell ∷ []

send_all-deliver_example :
    ((send_all hundredths control
        (no_policy_instance hundredths)
        come_and_gone
        (wired hundredths control (no_policy_instance hundredths) (pos 10) earlier)
        no_mail).policy
      ≡ deliver hundredths control (no_policy_instance hundredths) come_and_gone [])
    × ((send_all hundredths control
          (no_policy_instance hundredths)
          come_and_gone
          (wired hundredths control (no_policy_instance hundredths) (pos 10) earlier)
          no_mail).workload
        ≡ [])
send_all-deliver_example =
    send_all-deliver hundredths control (no_policy_instance hundredths) (pos 10) earlier
      come_and_gone no_mail

abbrev freeze_path : Bytes
freeze_path = make_path (konro_app_dir by_path plain (pos 42)) (codes "cgroup.freeze")

abbrev frozen_file : Files
frozen_file = (freeze_path, codes "1") ∷ []

abbrev over_cgroups :
    AppMapping hundredths
    → Files
    → PolicyManager hundredths
        (security_aware_policy_instance hundredths (cgroup_files by_path plain))
over_cgroups m w = record {
  apps = m ∷ [];
  policy_state = (make_security_aware_policy hundredths (cgroup_files by_path plain) 4 th, w);
}

mapped-moves : do_not_move by_path plain mapped.app.app_type ≡ false
unfolding do_not_move
mapped-moves = refl

mapped-alarmed :
    process_security_event hundredths
      (security_aware_policy_instance hundredths (cgroup_files by_path plain))
      mapped.app
      95
      factors
      "raw-socket"
      (over_cgroups mapped [])
    ≡ some (over_cgroups (contained 95 mapped) frozen_file)
unfolding process_security_event find konro.Policies.SecurityAware.security_alert
    konro.AppMapping.set_sai konro.SecState.step konro.AppMapping.set_quarantine
    konro.Cgroup.set_freeze
mapped-alarmed = refl

process_security_event-frozen_example :
    (find (mapping_key hundredths) (pos 42) (contained 95 mapped ∷ []) ≡ some (contained 95 mapped))
    × (by_path.read_lines freeze_path frozen_file ≡ (some (codes "1" ∷ []), frozen_file))
unfolding find konro.Policies.SecurityAware.tol_offset
process_security_event-frozen_example =
    process_security_event-frozen hundredths by_path plain mapped.app 95 factors "raw-socket" mapped
      (over_cgroups mapped []) (over_cgroups (contained 95 mapped) frozen_file) (λ w h. absurd cc)
      (by_path_read freeze_path (codes "1")) refl mapped-moves refl refl mapped-alarmed

-- A low alert, the application's feedback, and the timer.
abbrev quiet_events : List (Event hundredths)
quiet_events =
    security_event mapped.app 5 factors "" ∷ feedback_event mapped.app (pos 50) ∷ timer_event ∷ []

mapped-stays :
    run hundredths
      (security_aware_policy_instance hundredths (cgroup_files by_path plain))
      quiet_events
      (over_cgroups (contained 95 mapped) frozen_file)
    ≡ some (over_cgroups (contained 5 mapped) frozen_file)
unfolding run process_event process_security_event find konro.Policies.SecurityAware.security_alert
    konro.AppMapping.set_sai konro.SecState.step konro.PolicyManager.process_feedback_event
    konro.Policies.SecurityAware.feedback konro.PolicyManager.process_timer_event
mapped-stays = refl

run-IsContained_example :
    (m' : AppMapping hundredths) × (find (mapping_key hundredths) (pos 42) (contained 5 mapped ∷ [])
      ≡ some m')
    × IsContained m'
unfolding find
run-IsContained_example =
    run-IsContained hundredths (cgroup_files by_path plain) (pos 42) quiet_events
      (contained 95 mapped) (over_cgroups (contained 95 mapped) frozen_file)
      (over_cgroups (contained 5 mapped) frozen_file) (tt, (tt, (tt, tt))) refl (refl, refl)
      mapped-stays

compute_feedback_lem_example :
    (compute_feedback (pos 45) (pos 60) ≡ some (pos (min 200 (45 * 100 / 60))))
    × ((min 200 (45 * 100 / 60) < 100) ↔ (45 < 60))
compute_feedback_lem_example = compute_feedback_lem 45 60 (omega arith) (omega arith)

-- A library in which an object is the list of its members, and a text that it has written is the one
-- object that it knows.
abbrev Members : Type 0
Members = List (String × Value)

abbrev member : String → Members → Option Value
member key [] = none
member key ((k, v) ∷ j) = if k == key then some v else member key j

abbrev and_then : {A : Type 0} → Option Value → (Value → Option A) → Option A
and_then none f = none
and_then (some v) f = f v

abbrev request : Members
request =
    ("securityLevel", string "CRITICAL")
    ∷ ("name", string "detector")
    ∷ ("namespace", unsigned 0)
    ∷ ("pid", number (pos 7))
    ∷ []

abbrev one_object : Json
one_object = record {
  J = Members;
  parse = λ s. some request;
  contains = λ key j. is_some (member key j);
  to_int = λ key j. and_then (member key j) as_int;
  to_namespace = λ key j. and_then (member key j) as_namespace;
  to_text = λ key j. and_then (member key j) as_text;
}

abbrev one_writer : JsonWriter one_object
one_writer = record { empty = []; set = λ k v j. (k, v) ∷ j; dump = λ j. "request" }

one_laws : MemberLaws one_object one_writer
one_laws = record {
  contains-empty = λ key. refl;
  contains-set = λ key k v j. ground arith;
  to_int-set = λ key k v j. ground arith;
  to_namespace-set = λ key k v j. ground arith;
  to_text-set = λ key k v j. ground arith;
}

abbrev server : KonroHttp one_file one_object
server = record { world = []; bus = [] }

-- The server answers a handler that throws with what the handler has set.
abbrev plain_server : HttpServer
plain_server = record {
  failed = λ r. record r { status = some 500 };
  not_found = record { status = some 404; content = "" };
}

abbrev detector : Process
detector = record { pid = pos 7; program_name = "detector"; konro_env = none }

asked :
    some request
    ≡ some (add_message one_writer (pos 7) (get_pid_namespace one_file []) "detector" (pos 4))
unfolding add_message get_pid_namespace
asked = refl

own_pid : map_pid one_file (pos 7) (get_pid_namespace one_file []) [] ≡ (ok (pos 7), [])
unfolding map_pid get_pid_namespace
own_pid = refl

send_add_message-loopback_example :
    send_add_message one_object one_writer
      (loopback one_file one_object plain_server)
      one_file
      detector
      []
      (pos 4)
      server
    ≡ (
      "You have sent an ADD POST 'request'\r\n",
      record {
        world = [];
        bus =
            add_request (record {
              pid = pos 7;
              app_type = integrated;
              name = "detector";
              ns_pid = pos 7;
              ns = 0;
              cgroup_dir = [];
              security_level = critical;
            })
            ∷ [];
      },
    )
unfolding level_of get_pid_namespace
send_add_message-loopback_example =
    send_add_message-loopback one_file one_object plain_server one_writer one_laws one_file detector
      [] (pos 4) server [] asked own_pid
