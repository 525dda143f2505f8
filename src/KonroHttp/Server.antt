-- ===== src/KonroHttp/Server.antt =====
-- rm/src/konrohttp.cpp: the paths that the server answers, and the handlers. What the HTTP server does
-- with a handler that throws, and with a request that no handler is for, is a parameter.
use Prim.Native.String.{String, ◌++◌}
use konro.Base.{ℕ, Option, none, some, if◌then◌else◌}
use konro.Effect.{Exit, ok, exception, undefined}
use konro.KonroHttp.{Json, KonroHttp, send_feedback_event, send_add_event, send_clear_event}
use konro.NumericValue.{same_text}
use konro.Os.{Os}
use konro.Text.{Bytes, codes}

pub data Method : Type 0 where
  get_method post_method : Method

-- The status is left to the server where a handler does not set it.
pub record Response : Type 0 where
  pub status : Option ℕ
  pub content : String

pub record HttpServer : Type 0 where
  pub failed : Response → Response
  pub not_found : Response

-- Each handler of a POST sets the content before it does what is asked.
abbrev pub sent : String → String → Response
sent kind body = record {
  status = none;
  content = "You have sent " ++ (kind ++ (" POST '" ++ (body ++ "'\r\n")));
}

module _ (os : Os) (json : Json) (server : HttpServer) where
  open server use {failed, not_found}

  -- The response of a handler that has set one before it ran; `none` is undefined behaviour.
  abbrev pub responded :
      Response → Exit (Unit {0}) × KonroHttp os json → Option Response × KonroHttp os json
  responded r (ok u, h) = (some r, h)
  responded r (exception, h) = (some (failed r), h)
  responded r (undefined, h) = (none, h)

  unfoldable pub handle_get : KonroHttp os json → Option Response × KonroHttp os json
  handle_get h = (some (record { status = some 200; content = "200 - OK\r\n" }), h)

  unfoldable pub handle_add_post : String → KonroHttp os json → Option Response × KonroHttp os json
  unfolding send_add_event
  handle_add_post body h = responded (sent "an ADD" body) (send_add_event os json body h)

  unfoldable pub handle_feedback_post :
      String → KonroHttp os json → Option Response × KonroHttp os json
  unfolding send_feedback_event
  handle_feedback_post body h =
      responded (sent "a FEEDBACK" body) (send_feedback_event os json body h)

  unfoldable pub handle_clear_post :
      String → KonroHttp os json → Option Response × KonroHttp os json
  unfolding send_clear_event
  handle_clear_post body h = responded (sent "a CLEAR" body) (send_clear_event os json body h)

  unfoldable pub get_route : Bytes → KonroHttp os json → Option Response × KonroHttp os json
  unfolding handle_get
  get_route path h = if same_text path (codes "/status") then handle_get h else (some not_found, h)

  unfoldable pub post_route :
      Bytes → String → KonroHttp os json → Option Response × KonroHttp os json
  unfolding handle_add_post handle_feedback_post handle_clear_post
  post_route path body h =
      if same_text path (codes "/add")
      then handle_add_post body h
      else if same_text path (codes "/feedback")
      then handle_feedback_post body h
      else if same_text path (codes "/clear")
      then handle_clear_post body h
      else (some not_found, h)

  -- A request to the server, as the routes that `run` sets up answer it.
  unfoldable pub serve :
      Method → Bytes → String → KonroHttp os json → Option Response × KonroHttp os json
  unfolding get_route post_route
  serve get_method path body h = get_route path h
  serve post_method path body h = post_route path body h
