-- ===== src/Cgroup.antt =====
-- rm/platformcontrol/cgroup/cgrouputil.h, cgrouputil.cpp, cgroupcontrol.h and cgroupcontrol.cpp, with
-- rm/librmcommon/tsplit.h and makepath.h. The base directory is a constant of the build.
pub mod Controllers
pub mod Paths
pub mod Moves
pub mod Reads
pub mod Files
pub mod Platform
pub mod Errors
use Prim.Native.String.{String}
use konro.Base.{
  ℕ, zero, suc, ◌+◌, ◌-◌, ◌≡◌, refl, Bool, true, false, not, ◌&&◌, ◌||◌, Option, none, some, List,
  [], ◌∷◌, ◌++◌, ◌==◌, length, if◌then◌else◌,
}
use konro.Base.Int.{ℤ, to_int, pos}
use konro.App.{App, AppType, container, kubernetes, unknown, standalone, integrated}
use konro.Effect.{M, Exit, ok, exception, undefined, continue, ◌>>=◌, ◌>>◌, pure, in_bounds}
use konro.NumericValue.{same_text}
use konro.Os
use konro.Os.{Os, Entry, Written, done, not_opened, not_written, call, throw, check, create_dir}
use konro.Streams.{nth, words, read_number, strtol, strtoul}
use konro.Text.{Bytes, codes, print_ℤ}

pub record CgroupConfig : Type 0 where
  -- CGROUPBASEDIR
  pub base_dir : Bytes
  -- the static members of CGroupControl
  pub change_container_cgroup : Bool
  pub change_kubernetes_cgroup : Bool

-- setChangeContainerCgroup and setChangeKubernetesCgroup
unfoldable pub set_change_container_cgroup : Bool → CgroupConfig → CgroupConfig
set_change_container_cgroup val c = record c { change_container_cgroup = val }

unfoldable pub set_change_kubernetes_cgroup : Bool → CgroupConfig → CgroupConfig
set_change_kubernetes_cgroup val c = record c { change_kubernetes_cgroup = val }

abbrev pub make_path : Bytes → Bytes → Bytes
make_path first second = first ++ b'/' ∷ second

-- A character before the fields of the rest.
abbrev pub push_char : ℕ → List Bytes → List Bytes
push_char c [] = (c ∷ []) ∷ []
push_char c (w ∷ ws) = (c ∷ w) ∷ ws

-- For one separator. Nothing follows a separator at the end of the line, not even an empty field.
unfoldable pub tsplit : ℕ → Bytes → List Bytes
tsplit sep [] = []
tsplit sep (c ∷ line) =
    let rest = tsplit sep line in if c == sep then [] ∷ rest else push_char c rest

-- The rest of the text behind that many characters.
abbrev pub drop : {A : Type 0} → ℕ → List A → List A
drop zero xs = xs
drop (suc n) [] = []
drop (suc n) (x ∷ xs) = drop n xs

abbrev pub first_line : List Bytes → Bytes
first_line [] = []
first_line (line ∷ lines) = line

-- The first line of a file, as `getline` leaves it.
abbrev pub line_of : {W : Type 0} → Option (List Bytes) → M W Bytes
line_of none w = (exception, w)
line_of (some lines) w = (ok (first_line lines), w)

abbrev pub lines_of : {W : Type 0} → Option (List Bytes) → M W (List Bytes)
lines_of none w = (exception, w)
lines_of (some lines) w = (ok lines, w)

-- What the code checks of a write: that the file could be opened. The stream holds the text back until
-- it is closed, so that a write which the kernel refuses shows only then, where nothing is checked.
abbrev pub opened : Written → Bool
opened done = true
opened not_opened = false
opened not_written = true

-- tags.emplace: an earlier value of the tag stays.
unfoldable pub emplace : Bytes → ℕ → List (Bytes × ℕ) → List (Bytes × ℕ)
emplace tag value [] = (tag, value) ∷ []
emplace tag value ((t, v) ∷ tags) =
    if same_text t tag then (t, v) ∷ tags else (t, v) ∷ emplace tag value tags

unfoldable pub lookup : Bytes → List (Bytes × ℕ) → Option ℕ
lookup tag [] = none
lookup tag ((t, v) ∷ tags) = if same_text t tag then some v else lookup tag tags

-- `is >> tag >> value` on a line
unfoldable pub tag_value : Bytes → Option (Bytes × ℕ)
unfolding words read_number
tag_value line = elim (nth 0 (words line)) [
  | none ↦ none
  | some tag ↦ elim (nth 1 (words line)) [
    | none ↦ none
    | some word ↦ elim (read_number word) [ none ↦ none | some r ↦ some (tag, r.0) ]
  ]
]

-- The loop of getContentAsMap, which ends at the first line of another form.
unfoldable pub content_map : List Bytes → List (Bytes × ℕ) → List (Bytes × ℕ)
unfolding tag_value emplace
content_map [] tags = tags
content_map (line ∷ lines) tags = elim (tag_value line) [
  | none ↦ tags
  | some (tag, value) ↦ content_map lines (emplace tag value tags)
]

-- One round of the loop of `activateController`, on the path so far.
abbrev pub deeper : Bytes → Bytes → Bytes
deeper folder [] = folder
deeper folder (c ∷ part) = folder ++ b'/' ∷ c ∷ part

-- An empty directory is allowed only as the first one.
abbrev pub is_skipped : ℕ → Bytes → Bool
is_skipped zero part = false
is_skipped (suc i) [] = true
is_skipped (suc i) (c ∷ part) = false

module _ (os : Os) (config : CgroupConfig) where
  unfoldable pub konro_base_dir : Bytes
  konro_base_dir = config.base_dir ++ codes "/konro.slice"

  unfoldable pub konro_app_dir : ℤ → Bytes
  unfolding konro_base_dir print_ℤ
  konro_app_dir pid = make_path konro_base_dir (codes "app-" ++ print_ℤ pid ++ codes ".scope")

  -- The second element of the path is read without a check of the number of parts.
  unfoldable pub find_cgroup_path : ℤ → M os.World Bytes
  unfolding tsplit words print_ℤ
  find_cgroup_path pid = do
    found ← call (os.read_lines (codes "/proc/" ++ print_ℤ pid ++ codes "/cgroup"))
    line ← line_of found
    path ← elim (nth 0 (words line)) [ none ↦ throw | some word ↦ pure word ]
    part ← in_bounds (nth 2 (tsplit b':' path))
    pure (config.base_dir ++ part)

  -- The rounds of `activateController` for the parts of the path but the last.
  unfoldable pub activate_rounds : Bytes → ℕ → Bytes → List Bytes → M os.World (Unit {0})
  activate_rounds name i folder [] = pure tt
  activate_rounds name i folder (part ∷ []) = pure tt
  activate_rounds name i folder (part ∷ next ∷ parts) =
      let here = deeper folder part in
      let further = activate_rounds name (suc i) here (next ∷ parts) in
      if is_skipped i part then further else (do
        w ← call (os.write (make_path here (codes "cgroup.subtree_control")) (b'+' ∷ name))
        check (opened w)
        further)

  -- On an empty path `subPath.size() - 1` wraps, and `subPath[0]` is out of bounds.
  unfoldable pub activate_parts : Bytes → List Bytes → M os.World (Unit {0})
  unfolding activate_rounds
  activate_parts name [] = in_bounds none
  activate_parts name (part ∷ parts) = activate_rounds name 0 config.base_dir (part ∷ parts)

  unfoldable pub activate_controller : Bytes → Bytes → M os.World (Unit {0})
  unfolding activate_parts tsplit
  activate_controller name path =
      activate_parts name (tsplit b'/' (drop (length config.base_dir) path))

  unfoldable pub check_activate_controller : Bytes → Bytes → Bytes → M os.World (Unit {0})
  unfolding activate_controller
  check_activate_controller name file path = do
    there ← call (os.file_exists (make_path path file))
    (if there then pure tt else activate_controller name path)

  unfoldable pub util_get_line : Bytes → Bytes → M os.World Bytes
  util_get_line file path = do found ← call (os.read_lines (make_path path file)); line_of found

  unfoldable pub util_get_content : Bytes → Bytes → M os.World (List Bytes)
  util_get_content file path = do found ← call (os.read_lines (make_path path file)); lines_of found

  unfoldable pub write_value : Bytes → Bytes → Bytes → M os.World (Unit {0})
  write_value file value path = do w ← call (os.write (make_path path file) value); check (opened w)

  unfoldable pub create_cgroup : Bytes → Bytes → M os.World Bytes
  unfolding create_dir
  create_cgroup path name = do create_dir os (make_path path name); pure (make_path path name)

  unfoldable pub move_to_cgroup : Bytes → ℤ → M os.World (Unit {0})
  unfolding print_ℤ
  move_to_cgroup path pid = do
    w ← call (os.write (make_path path (codes "cgroup.procs")) (print_ℤ pid))
    check (opened w)

  -- Whether the app stays in its own cgroup.
  unfoldable pub do_not_move : AppType → Bool
  do_not_move container = not config.change_container_cgroup
  do_not_move kubernetes = not config.change_kubernetes_cgroup
  do_not_move unknown = false
  do_not_move standalone = false
  do_not_move integrated = false

  unfoldable pub get_cgroup_app_dir : App → M os.World Bytes
  unfolding do_not_move find_cgroup_path konro_app_dir
  get_cgroup_app_dir app =
      if do_not_move app.app_type then find_cgroup_path app.pid else pure (konro_app_dir app.pid)

  unfoldable pub get_line : Bytes → Bytes → App → M os.World Bytes
  unfolding get_cgroup_app_dir check_activate_controller util_get_line
  get_line name file app = do
    path ← get_cgroup_app_dir app
    check_activate_controller name file path
    util_get_line file path

  unfoldable pub get_content : Bytes → Bytes → App → M os.World (List Bytes)
  unfolding get_cgroup_app_dir check_activate_controller util_get_content
  get_content name file app = do
    path ← get_cgroup_app_dir app
    check_activate_controller name file path
    util_get_content file path

  unfoldable pub set_value : Bytes → Bytes → Bytes → App → M os.World (Unit {0})
  unfolding get_cgroup_app_dir check_activate_controller write_value
  set_value name file value app = do
    path ← get_cgroup_app_dir app
    check_activate_controller name file path
    write_value file value path

  unfoldable pub set_freeze : Bool → App → M os.World (Unit {0})
  unfolding get_cgroup_app_dir write_value
  set_freeze freeze app = do
    path ← get_cgroup_app_dir app
    write_value (codes "cgroup.freeze") (if freeze then codes "1" else codes "0") path

  unfoldable pub get_value_as_int : Bytes → Bytes → App → M os.World ℤ
  unfolding get_line strtoul
  get_value_as_int name file app = do
    value ← get_line name file app
    pure (to_int (pos (strtoul value)))

  unfoldable pub get_content_as_map : Bytes → Bytes → App → M os.World (List (Bytes × ℕ))
  unfolding get_cgroup_app_dir check_activate_controller get_content content_map
  get_content_as_map name file app = do
    path ← get_cgroup_app_dir app
    check_activate_controller name file path
    lines ← get_content name file app
    pure (content_map lines [])
