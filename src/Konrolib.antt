-- ===== src/Konrolib.antt =====
-- konrolib/konrolib.cpp: what an application sends to the HTTP interface. The JSON library, the HTTP
-- client and the environment are parameters.
pub mod Feedback
pub mod Requests
pub mod Loopback
use Prim.Native.String.{String}
use konro.Base.{ℕ, zero, suc, ◌/◌, Option, none, some, ◌++◌, if◌then◌else◌}
use konro.Base.Int.{ℤ, pos, negsuc, sub_ℕ, eqb_ℤ, hundred, min_ℤ, max_ℤ, to_int}
use konro.KonroHttp.{Json}
use konro.Os.{Os}
use konro.Text.{Bytes, codes}

-- What a member of a JSON object is set to.
pub data Value : Type 0 where
  number : ℤ → Value
  unsigned : ℕ → Value
  string : String → Value

-- nlohmann::json, for writing: `j[key] = value` and `j.dump()`.
pub record JsonWriter (json : Json) : Type 0 where
  pub empty : json.J
  pub set : String → Value → json.J → json.J
  pub dump : json.J → String

-- getServerAddress
unfoldable pub get_server_address : Option String → String
get_server_address none = "http://localhost:8080"
get_server_address (some env_addr) = env_addr

-- httplib::Client: a POST to a path of a server, with the body of the response, if there is one.
pub record Client : Type 1 where
  pub Net : Type 0
  pub post : String → Bytes → String → Net → Option String × Net

-- The body, or the empty string where there is no result.
abbrev pub body_of : Option String → String
body_of none = ""
body_of (some body) = body

-- A process that uses the library.
pub record Process : Type 0 where
  pub pid : ℤ
  pub program_name : String
  pub konro_env : Option String

abbrev pub inode_or_zero : Option ℕ → ℕ
inode_or_zero none = 0
inode_or_zero (some inode) = inode

-- getPidNamespace: 0 where the file cannot be opened or its state not be read.
unfoldable pub get_pid_namespace : (os : Os) → os.World → ℕ
get_pid_namespace os w = inode_or_zero (os.inode_of (codes "/proc/self/ns/pid") w).0

-- The quotient of two integers, which C++ rounds to zero.
unfoldable pub quotient : ℤ → ℤ → Option ℤ
quotient a (pos zero) = none
quotient (pos a) (pos (suc b)) = some (pos (a / suc b))
quotient (pos a) (negsuc b) = some (sub_ℕ 0 (a / suc b))
quotient (negsuc a) (pos (suc b)) = some (sub_ℕ 0 (suc a / suc b))
quotient (negsuc a) (negsuc b) = some (pos (suc a / suc b))

abbrev pub limit_between : ℤ → ℤ → ℤ → ℤ
limit_between val minval maxval = max_ℤ (min_ℤ val maxval) minval

-- `none`: the product does not fit an int, or the target is 0, which is undefined.
unfoldable pub compute_feedback : ℤ → ℤ → Option ℤ
unfolding quotient
compute_feedback cur_value target =
    let product = hundred cur_value in
    if eqb_ℤ (to_int product) product
    then elim (quotient product target) [
      | none ↦ none
      | some feedback ↦ some (limit_between feedback (pos 0) (pos 200))
    ]
    else none

-- The name of a level; 0, which names none, and any number but 1 to 4 have none.
unfoldable pub level_name : ℤ → Option String
level_name security_level =
    if eqb_ℤ security_level (pos 1)
    then some "LOW"
    else if eqb_ℤ security_level (pos 2)
    then some "MEDIUM"
    else if eqb_ℤ security_level (pos 3)
    then some "HIGH"
    else if eqb_ℤ security_level (pos 4)
    then some "CRITICAL"
    else none

module _ {json : Json} (writer : JsonWriter json) where
  open writer use {empty, set}

  unfoldable pub feedback_message : ℤ → ℕ → ℤ → json.J
  feedback_message pid ns feedback =
      set "namespace" (unsigned ns)
        (set "feedback" (number feedback) (set "pid" (number pid) empty))

  abbrev pub with_level : Option String → json.J → json.J
  with_level none j = j
  with_level (some level) j = set "securityLevel" (string level) j

  unfoldable pub add_message : ℤ → ℕ → String → ℤ → json.J
  unfolding level_name
  add_message pid ns name security_level =
      with_level (level_name security_level)
        (set "name" (string name) (set "namespace" (unsigned ns) (set "pid" (number pid) empty)))

module _ (json : Json) (writer : JsonWriter json) (client : Client) (os : Os) where
  open writer use {dump}
  open client use {Net, post}

  unfoldable pub send_post : Process → String → String → Net → String × Net
  unfolding get_server_address
  send_post p msg_type body net =
      let r = post (get_server_address p.konro_env) (codes "/" ++ codes msg_type) body net in
      (body_of r.0, r.1)

  unfoldable pub send_feedback_message : Process → os.World → ℤ → Net → String × Net
  unfolding send_post get_pid_namespace feedback_message
  send_feedback_message p w feedback net =
      send_post p "feedback"
        (dump (feedback_message writer p.pid (get_pid_namespace os w) feedback)) net

  -- Without a level, the level is 0.
  unfoldable pub send_add_message : Process → os.World → ℤ → Net → String × Net
  unfolding send_post get_pid_namespace add_message
  send_add_message p w security_level net =
      send_post p "add"
        (dump (add_message writer p.pid (get_pid_namespace os w) p.program_name security_level)) net
