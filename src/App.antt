-- ===== src/App.antt =====
-- rm/librmcommon/app.h: what is known of one application.
use Prim.Native.String.{String}
use text.Mathlib.Text.{◌==◌}
use konro.Base.{ℕ, ◌≡◌, refl, [], if◌then◌else◌}
use konro.Base.Int.{ℤ, pos}
use konro.Text.{Bytes}

pub data AppType : Type 0 where
  unknown standalone integrated container kubernetes : AppType

pub data SecurityLevel : Type 0 where
  unclassified low medium high critical : SecurityLevel

-- `pid`, `app_type`, `ns_pid` and `ns` have no setter.
pub record App : Type 0 where
  pub pid : ℤ
  pub app_type : AppType
  pub name : String
  pub ns_pid : ℤ
  pub ns : ℕ
  pub cgroup_dir : Bytes
  pub security_level : SecurityLevel

-- `makeApp` with its last four arguments at their defaults.
abbrev pub make_app : ℤ → AppType → App
make_app pid app_type = record {
  pid = pid;
  app_type = app_type;
  name = "";
  ns_pid = pos 0;
  ns = 0;
  cgroup_dir = [];
  security_level = unclassified;
}

unfoldable pub set_name : String → App → App
set_name app_name app = record app { name = app_name }

unfoldable pub set_cgroup_dir : Bytes → App → App
set_cgroup_dir dir app = record app { cgroup_dir = dir }

unfoldable pub get_type_by_name : String → AppType
get_type_by_name app_type =
    if app_type == "STANDALONE"
    then standalone
    else if app_type == "INTEGRATED"
    then integrated
    else if app_type == "CONTAINER"
    then container
    else if app_type == "KUBERNETES"
    then kubernetes
    else unknown

unfoldable pub get_security_level_by_name : String → SecurityLevel
get_security_level_by_name level =
    if level == "LOW"
    then low
    else if level == "MEDIUM"
    then medium
    else if level == "HIGH"
    then high
    else if level == "CRITICAL"
    then critical
    else unclassified

pub get_app_type_string : AppType → String
get_app_type_string unknown = "UNKNOWN"
get_app_type_string standalone = "STANDALONE"
get_app_type_string integrated = "INTEGRATED"
get_app_type_string container = "CONTAINER"
get_app_type_string kubernetes = "KUBERNETES"

-- Each type is found again by the name that it is printed with.
pub get_type_by_name-get_app_type_string :
    (t : AppType) → get_type_by_name (get_app_type_string t) ≡ t
unfolding get_type_by_name get_app_type_string
get_type_by_name-get_app_type_string unknown = refl
get_type_by_name-get_app_type_string standalone = refl
get_type_by_name-get_app_type_string integrated = refl
get_type_by_name-get_app_type_string container = refl
get_type_by_name-get_app_type_string kubernetes = refl
