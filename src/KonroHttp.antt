-- ===== src/KonroHttp.antt =====
-- rm/src/konrohttp.cpp: the requests of the HTTP interface. The JSON library and the HTTP server are
-- other projects' code: parsing a request and reading its members are a parameter.
pub mod Server
use Prim.Native.String.{String}
use konro.Base.{
  ℕ, Bool, true, false, not, ◌||◌, Option, none, some, List, [], ◌∷◌, ◌++◌, if◌then◌else◌,
}
use konro.Base.Int.{ℤ, eqb_ℤ}
use konro.App.{
  App, AppType, unknown, standalone, integrated, container, kubernetes, SecurityLevel, unclassified,
  get_type_by_name, get_security_level_by_name,
}
use konro.Effect.{M, Exit, ok, exception, ◌>>=◌, pure, modify}
use konro.Namespaces.{map_pid, is_kub_pod}
use konro.Os.{Os, call}

-- nlohmann::json: `none` is an exception, of the parser or of a conversion to another type.
pub record Json : Type 1 where
  pub J : Type 0
  pub parse : String → Option J
  pub contains : String → J → Bool
  pub to_int : String → J → Option ℤ
  pub to_namespace : String → J → Option ℕ
  pub to_text : String → J → Option String

-- What is published.
pub data Request : Type 0 where
  feedback_request : ℤ → ℕ → ℤ → Request
  add_request : App → Request
  clear : ℤ → Request

abbrev pub is_unknown : AppType → Bool
is_unknown unknown = true
is_unknown standalone = false
is_unknown integrated = false
is_unknown container = false
is_unknown kubernetes = false

abbrev pub or_throw : {S A : Type 0} → Option A → M S A
or_throw none s = (exception, s)
or_throw (some a) s = (ok a, s)

module _ (os : Os) (json : Json) where
  open json use {J, parse, contains, to_int, to_namespace, to_text}

  pub record KonroHttp : Type 0 where
    pub world : os.World
    pub bus : List Request

  abbrev pub moved : {A : Type 0} → KonroHttp → Exit A × os.World → Exit A × KonroHttp
  moved h r = (r.0, record h { world = r.1 })

  abbrev pub on_os : {A : Type 0} → M os.World A → M KonroHttp A
  on_os m h = moved h (m h.world)

  unfoldable pub publish : Request → M KonroHttp (Unit {0})
  publish e = modify (λ h. record h { bus = h.bus ++ e ∷ [] })

  -- The namespace of a message, 0 where there is none.
  unfoldable pub namespace_or_zero : J → M KonroHttp ℕ
  namespace_or_zero j =
      if contains "namespace" j then or_throw (to_namespace "namespace" j) else pure 0

  unfoldable pub send_feedback_event : String → M KonroHttp (Unit {0})
  unfolding namespace_or_zero publish
  send_feedback_event text = do
    j ← or_throw (parse text)
    (if not (contains "pid" j) || not (contains "feedback" j) then pure tt else (do
      pid ← or_throw (to_int "pid" j)
      feedback ← or_throw (to_int "feedback" j)
      ns ← namespace_or_zero j
      publish (feedback_request pid ns feedback)))

  -- What tells the app: its pid for Konro, its type and its namespace.
  abbrev pub Told : Type 0
  Told = Option (ℤ × AppType × ℕ)

  unfoldable pub told_by_type : ℤ → J → M KonroHttp Told
  unfolding get_type_by_name
  told_by_type ns_pid j = do
    type ← or_throw (to_text "type" j)
    pure (
        if is_unknown (get_type_by_name type)
        then none
        else some (ns_pid, get_type_by_name type, 0))

  unfoldable pub told_by_namespace : ℤ → J → M KonroHttp Told
  unfolding map_pid is_kub_pod
  told_by_namespace ns_pid j = do
    ns ← or_throw (to_namespace "namespace" j)
    pid ← on_os (map_pid os ns_pid ns)
    (if eqb_ℤ pid ns_pid then pure (some (pid, integrated, ns)) else (do
      kub ← on_os (call (is_kub_pod os pid))
      pure (some (pid, (if kub then kubernetes else container), ns))))

  -- A message with neither a type nor a namespace is refused.
  unfoldable pub told : ℤ → J → M KonroHttp Told
  unfolding told_by_type told_by_namespace
  told ns_pid j =
      if contains "type" j
      then told_by_type ns_pid j
      else if contains "namespace" j
      then told_by_namespace ns_pid j
      else pure none

  unfoldable pub security_level_of : J → M KonroHttp SecurityLevel
  unfolding get_security_level_by_name
  security_level_of j =
      if contains "securityLevel" j
      then (do
        level ← or_throw (to_text "securityLevel" j)
        pure (get_security_level_by_name level))
      else pure unclassified

  -- The end of `sendAddEvent`.
  unfoldable pub publish_app : ℤ → String → J → Told → M KonroHttp (Unit {0})
  unfolding security_level_of publish
  publish_app ns_pid name j none = pure tt
  publish_app ns_pid name j (some (pid, app_type, ns)) = do
    level ← security_level_of j
    publish (
        add_request (record {
          pid = pid;
          app_type = app_type;
          name = name;
          ns_pid = ns_pid;
          ns = ns;
          cgroup_dir = [];
          security_level = level;
        }))

  unfoldable pub send_add_event : String → M KonroHttp (Unit {0})
  unfolding told publish_app
  send_add_event text = do
    j ← or_throw (parse text)
    (if not (contains "pid" j) then pure tt else (do
      ns_pid ← or_throw (to_int "pid" j)
      name ← (if contains "name" j then or_throw (to_text "name" j) else pure "")
      what ← told ns_pid j
      publish_app ns_pid name j what))

  unfoldable pub send_clear_event : String → M KonroHttp (Unit {0})
  unfolding publish
  send_clear_event text = do
    j ← or_throw (parse text)
    (if not (contains "pid" j)
        then pure tt
        else (do pid ← or_throw (to_int "pid" j); publish (clear pid)))
