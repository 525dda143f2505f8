-- ===== src/KonroManager/Settings.antt =====
-- common/src/config.cpp and rm/src/konromanager.cpp: where the configuration comes from. The file that the
-- ini library has read is a parameter, each section with its keys and values, and so are the path that the
-- build gives to CONFIG_PATH and the environment.
use konro.Base.{
  ◌≡◌, refl, ◌&&◌, Option, none, some, List, [], ◌∷◌, Bool-cases, inl, inr, if◌then◌else◌,
}
use konro.Cgroup.{make_path}
use konro.KonroManager.{Config, read, assign}
use konro.NumericValue.{same_text}
use konro.NumericValue.RoundTrip.{same_text_refl}
use konro.Os.{Os}
use konro.Streams.{is_empty}
use konro.Text.{Bytes}

-- Dir::home
unfoldable home : Option Bytes → Bytes
home none = []
home (some path) = path

unfoldable default_config_file_path : Bytes → Option Bytes → Bytes
unfolding home
default_config_file_path config_path env_home =
    if is_empty (home env_home) then config_path else make_path (home env_home) config_path

unfoldable config_file_path : Bytes → Option Bytes → Bytes → Bytes
unfolding default_config_file_path
config_file_path config_path env_home config_file =
    if is_empty config_file then default_config_file_path config_path env_home else config_file

-- The path of the file that is read, `none` where there is no such file: the members are then left
-- without a value.
unfoldable found_config_file :
    (os : Os) → Bytes → Option Bytes → Bytes → os.World → Option Bytes × os.World
unfolding config_file_path
found_config_file os config_path env_home config_file w =
    let path = config_file_path config_path env_home config_file in
    let r = os.file_exists path w in ((if r.0 then some path else none), r.1)

-- The loops of Config::Config.
unfoldable assign_section : Bytes → List (Bytes × Bytes) → Config → Config
unfolding assign
assign_section section [] config = config
assign_section section ((key, value) ∷ values) config =
    assign_section section values (assign section key value config)

unfoldable make_config : List (Bytes × List (Bytes × Bytes)) → Config → Config
unfolding assign_section
make_config [] config = config
make_config ((section, values) ∷ sections) config =
    make_config sections (assign_section section values config)

-- What is assigned to a key of a section is what is read there.
read-assign :
    (section key value : Bytes) (config : Config)
    → read section key (assign section key value config) ≡ some value
unfolding read assign
read-assign section key value [] = rw (same_text_refl section, same_text_refl key) refl
read-assign section key value (((s, k), old) ∷ config) =
    elim (Bool-cases (same_text s section && same_text k key)) [
      | inl e ↦ rw (e, e) refl
      | inr e ↦ rw (e, e) (read-assign section key value config)
    ]
