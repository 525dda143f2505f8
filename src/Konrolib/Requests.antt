-- ===== src/Konrolib/Requests.antt =====
-- What an application sends is what the HTTP interface reads.
use Prim.Native.String.{String}
use text.Mathlib.Text.{◌==◌}
use konro.Base.{
  ℕ, ◌≡◌, ◌∙◌, refl, false, Option, none, some, [], ◌∷◌, ◌++◌, ◌||◌, arith, if◌then◌else◌,
}
use konro.Base.Int.{ℤ, pos, eqb_ℤ, eqb_ℤ_iff, to_int, to_uint64}
use konro.App.{
  integrated, SecurityLevel, unclassified, low, medium, high, critical, get_security_level_by_name,
}
use konro.Effect.{ok}
use konro.KonroHttp.{
  Json, KonroHttp, feedback_request, add_request, publish, told, told_by_namespace, publish_app,
  security_level_of, namespace_or_zero, send_add_event, send_feedback_event,
}
use konro.Namespaces.{map_pid}
use konro.Konrolib.{
  Value, number, unsigned, string, JsonWriter, level_name, feedback_message, with_level,
  add_message,
}
use konro.Os.{Os}

-- The conversions of nlohmann::json from a member: between the integers, and of a text to itself.
abbrev pub as_int : Value → Option ℤ
as_int (number n) = some n
as_int (unsigned n) = some (to_int (pos n))
as_int (string s) = none

abbrev pub as_namespace : Value → Option ℕ
as_namespace (number n) = some (to_uint64 n)
as_namespace (unsigned n) = some n
as_namespace (string s) = none

abbrev pub as_text : Value → Option String
as_text (number n) = none
as_text (unsigned n) = none
as_text (string s) = some s

-- What nlohmann::json documents of an object: it contains the members that were set, with the values
-- that they were last set to.
pub record MemberLaws (json : Json) (writer : JsonWriter json) : Type 0 where
  pub contains-empty : (key : String) → json.contains key writer.empty ≡ false
  pub contains-set :
      (key k : String) (v : Value) (j : json.J)
      → json.contains key (writer.set k v j) ≡ (k == key || json.contains key j)
  pub to_int-set :
      (key k : String) (v : Value) (j : json.J)
      → json.to_int key (writer.set k v j) ≡ (if k == key then as_int v else json.to_int key j)
  pub to_namespace-set :
      (key k : String) (v : Value) (j : json.J)
      → json.to_namespace key (writer.set k v j)
        ≡ (if k == key then as_namespace v else json.to_namespace key j)
  pub to_text-set :
      (key k : String) (v : Value) (j : json.J)
      → json.to_text key (writer.set k v j) ≡ (if k == key then as_text v else json.to_text key j)

-- The level that an application means by a number.
unfoldable pub level_of : ℤ → SecurityLevel
level_of n =
    if eqb_ℤ n (pos 1)
    then low
    else if eqb_ℤ n (pos 2)
    then medium
    else if eqb_ℤ n (pos 3)
    then high
    else if eqb_ℤ n (pos 4)
    then critical
    else unclassified

module _ (os : Os) (json : Json) (writer : JsonWriter json) (laws : MemberLaws json writer) where
  open laws use {contains-empty, contains-set, to_int-set, to_namespace-set, to_text-set}
  open writer use {dump}

  -- Where the library parses what it has written: the feedback that an application sends is published
  -- with its pid, its namespace and its value.
  pub send_feedback_event-message :
      (pid feedback : ℤ) (ns : ℕ) (h : KonroHttp os json)
      → json.parse (dump (feedback_message writer pid ns feedback))
        ≡ some (feedback_message writer pid ns feedback)
      → send_feedback_event os json (dump (feedback_message writer pid ns feedback)) h
        ≡ (ok tt, record h { bus = h.bus ++ feedback_request pid ns feedback ∷ [] })
  unfolding send_feedback_event feedback_message namespace_or_zero publish
  send_feedback_event-message pid feedback ns h parsed =
      rw parsed (simp (contains-set, to_int-set, to_namespace-set) refl)

  level_from : Option String → SecurityLevel
  level_from none = unclassified
  level_from (some name) = get_security_level_by_name name

  level_from-level_name : (n : ℤ) → level_from (level_name n) ≡ level_of n
  unfolding level_from level_name level_of get_security_level_by_name
  level_from-level_name n = ground arith

  sent_with :
      (level : Option String) (pid : ℤ) (ns : ℕ) (name : String) (text : String)
      (h : KonroHttp os json) (w : os.World)
      → json.parse text
        ≡ some (
            with_level writer level (
              writer.set "name" (string name) (
                writer.set "namespace" (unsigned ns) (writer.set "pid" (number pid) writer.empty))))
      → map_pid os pid ns h.world ≡ (ok pid, w)
      → send_add_event os json text h ≡ (
        ok tt,
        record h {
          world = w;
          bus =
              h.bus
              ++ add_request (record {
                pid = pid;
                app_type = integrated;
                name = name;
                ns_pid = pid;
                ns = ns;
                cgroup_dir = [];
                security_level = level_from level;
              })
                ∷ [];
        },
      )
  unfolding send_add_event told told_by_namespace publish_app security_level_of publish level_from
  sent_with none pid ns name text h w parsed mapped = rw (parsed) (
      simp
        (
          contains-set,
          contains-empty,
          to_int-set,
          to_namespace-set,
          to_text-set,
          mapped,
          (eqb_ℤ_iff pid pid).1 refl,
        )
        refl)
  sent_with (some level) pid ns name text h w parsed mapped = rw (parsed) (
      simp
        (
          contains-set,
          contains-empty,
          to_int-set,
          to_namespace-set,
          to_text-set,
          mapped,
          (eqb_ℤ_iff pid pid).1 refl,
        )
        refl)

  -- Where the library parses what it has written: the message by which an application asks to be added,
  -- from a process that the namespaces map to its own pid, is published as a request for an integrated
  -- app with its pid, its program's name, its namespace and the level that it asked for.
  pub send_add_event-message :
      (pid : ℤ) (ns : ℕ) (name : String) (security_level : ℤ) (h : KonroHttp os json) (w : os.World)
      → json.parse (dump (add_message writer pid ns name security_level))
        ≡ some (add_message writer pid ns name security_level)
      → map_pid os pid ns h.world ≡ (ok pid, w)
      → send_add_event os json (dump (add_message writer pid ns name security_level)) h ≡ (
        ok tt,
        record h {
          world = w;
          bus =
              h.bus
              ++ add_request (record {
                pid = pid;
                app_type = integrated;
                name = name;
                ns_pid = pid;
                ns = ns;
                cgroup_dir = [];
                security_level = level_of security_level;
              })
                ∷ [];
        },
      )
  send_add_event-message pid ns name security_level h w parsed mapped =
      rw (← level_from-level_name security_level) (
        sent_with (level_name security_level) pid ns name _ h w
          (parsed ∙ (unfold add_message in refl)) mapped)
