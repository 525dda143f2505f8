-- ===== src/Cgroup/Moves.antt =====
-- CGroupControl::addApplication, removeApplication and cleanup: the apps' directories.
use konro.Base.{Bool, true, false, Option, none, some, List, [], ◌∷◌, if◌then◌else◌}
use konro.Base.Int.{to_int}
use konro.App.{App}
use konro.Cgroup.{
  CgroupConfig, make_path, konro_base_dir, konro_app_dir, do_not_move, get_cgroup_app_dir,
  move_to_cgroup, util_get_line,
}
use konro.Effect.{M, Exit, ok, exception, undefined, ◌>>=◌, ◌>>◌, pure, attempt}
use konro.Os.{Os, Entry, call, mkdir_r, remove_dir}
use konro.Streams.{is_empty, strtol}
use konro.Text.{Bytes, codes}

-- try { m } catch (runtime_error &) { return false; }: whether m returns.
abbrev pub tried : {W : Type 0} → Exit (Unit {0}) × W → Exit Bool × W
tried (ok a, w) = (ok true, w)
tried (exception, w) = (ok false, w)
tried (undefined, w) = (undefined, w)

abbrev pub entries_of : {W : Type 0} → Option (List Entry) → M W (List Entry)
entries_of none w = (exception, w)
entries_of (some es) w = (ok es, w)

module _ (os : Os) (config : CgroupConfig) where
  -- `addApplication` behind the creation of the directory.
  unfoldable pub move_app : App → Bytes → Bool → M os.World (Bool × Option Bytes)
  unfolding move_to_cgroup
  move_app app dir false = pure (false, none)
  move_app app dir true = do
    moved ← (λ w. tried (move_to_cgroup os config dir app.pid w))
    pure (moved, (if moved then some dir else none))

  -- The result, and the directory that is stored in the app, if one is.
  unfoldable pub add_application : App → M os.World (Bool × Option Bytes)
  unfolding get_cgroup_app_dir do_not_move mkdir_r move_app
  add_application app = do
    dir ← get_cgroup_app_dir os config app
    (if do_not_move os config app.app_type
        then pure (true, some dir)
        else (do made ← (λ w. tried (mkdir_r os dir w)); move_app app dir made))

  unfoldable pub remove_application : App → M os.World Bool
  unfolding do_not_move konro_app_dir remove_dir
  remove_application app =
      if do_not_move os config app.app_type
      then pure true
      else (λ w. tried (remove_dir os (konro_app_dir os config app.pid) w))

  -- One directory of the loop of `cleanup`: a process in it is moved to the root of the hierarchy.
  unfoldable pub clean_dir : Bytes → M os.World (Unit {0})
  unfolding util_get_line move_to_cgroup remove_dir strtol
  clean_dir path = do
    pid ← util_get_line os config (codes "cgroup.procs") path
    (if is_empty pid
        then pure tt
        else move_to_cgroup os config config.base_dir (to_int (strtol pid)))
    remove_dir os path

  unfoldable pub clean_dirs : List Entry → M os.World (Unit {0})
  unfolding clean_dir konro_base_dir
  clean_dirs [] = pure tt
  clean_dirs (e ∷ es) =
      let rest = clean_dirs es in
      if e.is_dir then (do clean_dir (make_path (konro_base_dir os config) e.name); rest) else rest

  unfoldable pub cleanup : M os.World (Unit {0})
  unfolding clean_dirs konro_base_dir remove_dir
  cleanup = attempt (do
    there ← call (os.dir_exists (konro_base_dir os config))
    (if there
        then (do
          found ← call (os.entries (konro_base_dir os config))
          es ← entries_of found
          clean_dirs es
          remove_dir os (konro_base_dir os config))
        else pure tt))
