-- ===== src/Konrolib/Loopback.antt =====
-- The client library over the server of the HTTP interface: from a call in an application to the bus.
use Prim.Native.String.{String}
use konro.Base.{◌≡◌, refl, Option, none, some, [], ◌∷◌, ◌++◌}
use konro.Base.Int.{ℤ}
use konro.App.{integrated}
use konro.Effect.{ok}
use konro.KonroHttp.{Json, KonroHttp, feedback_request, add_request}
use konro.KonroHttp.Server.{Response, HttpServer, sent, post_method, serve}
use konro.Konrolib.{
  JsonWriter, Client, Process, get_pid_namespace, feedback_message, add_message,
  send_feedback_message, send_add_message,
}
use konro.Konrolib.Requests.{
  MemberLaws, level_of, send_add_event-message, send_feedback_event-message,
}
use konro.Namespaces.{map_pid}
use konro.Os.{Os}

-- The body of the response, if there is one.
abbrev pub content_of : Option Response → Option String
content_of none = none
content_of (some r) = some r.content

module _ (os : Os) (json : Json) (server : HttpServer) where
  -- A client that reaches the server, whatever the address is.
  abbrev pub loopback : Client
  loopback = record {
    Net = KonroHttp os json;
    post = λ address path body h.
        let r = serve os json server post_method path body h in (content_of r.0, r.1);
  }

  module _ (writer : JsonWriter json) (laws : MemberLaws json writer) (own : Os) where
    open writer use {dump}

    -- sendAddMessage of an application reaches the server's handler for it: where the server parses
    -- what the application has written, and the namespaces map the application to its own pid, an
    -- AddRequestEvent with its pid, name, namespace and level is published, and the application is
    -- told what it has sent.
    pub send_add_message-loopback :
        (p : Process) (v : own.World) (security_level : ℤ) (h : KonroHttp os json) (w : os.World)
        → json.parse (
            dump (add_message writer p.pid (get_pid_namespace own v) p.program_name security_level))
          ≡ some (add_message writer p.pid (get_pid_namespace own v) p.program_name security_level)
        → map_pid os p.pid (get_pid_namespace own v) h.world ≡ (ok p.pid, w)
        → send_add_message json writer loopback own p v security_level h ≡ (
          (sent "an ADD" (
              dump (
                add_message writer p.pid
                  (get_pid_namespace own v)
                  p.program_name
                  security_level))).content,
          record h {
            world = w;
            bus =
                h.bus
                ++ add_request (record {
                  pid = p.pid;
                  app_type = integrated;
                  name = p.program_name;
                  ns_pid = p.pid;
                  ns = get_pid_namespace own v;
                  cgroup_dir = [];
                  security_level = level_of security_level;
                })
                  ∷ [];
          },
        )
    unfolding send_add_message konro.Konrolib.send_post serve
    send_add_message-loopback p v security_level h w parsed mapped =
        rw
          (send_add_event-message os json writer laws p.pid (get_pid_namespace own v) p.program_name
            security_level h w parsed mapped)
          refl

    -- The same for sendFeedbackMessage: the application's feedback is published.
    pub send_feedback_message-loopback :
        (p : Process) (v : own.World) (feedback : ℤ) (h : KonroHttp os json)
        → json.parse (dump (feedback_message writer p.pid (get_pid_namespace own v) feedback))
          ≡ some (feedback_message writer p.pid (get_pid_namespace own v) feedback)
        → (send_feedback_message json writer loopback own p v feedback h).1 ≡ record h {
          bus = h.bus ++ feedback_request p.pid (get_pid_namespace own v) feedback ∷ [];
        }
    unfolding send_feedback_message konro.Konrolib.send_post serve
    send_feedback_message-loopback p v feedback h parsed =
        rw
          (send_feedback_event-message os json writer laws p.pid feedback (get_pid_namespace own v)
            h parsed)
          refl
