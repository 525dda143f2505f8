-- ===== src/Cgroup/Errors.antt =====
-- Failed file operations end in a result, not in an exception.
use konro.Base.{
  ◌≡◌, refl, ◌==◌, Bool, true, false, none, some, [], ◌∷◌, ◌++◌, if◌then◌else◌, Bool-cases, inl,
  inr,
}
use konro.App.{App}
use konro.Cgroup.{CgroupConfig, konro_app_dir, do_not_move, get_cgroup_app_dir, move_to_cgroup}
use konro.Cgroup.Moves.{tried, move_app, add_application, remove_application}
use konro.Effect.{Exit, ok, exception, undefined, IsDefined, continue-IsDefined}
use konro.Os.{Os, check, create_dir, make_dirs, mkdir_r, remove_dir}
use konro.Text.{Bytes}

pub check-IsDefined : {W : Type 0} (t : Bool) (w : W) → IsDefined (check t w)
check-IsDefined true w = tt
check-IsDefined false w = tt

tried-IsDefined :
    {W : Type 0} (r : Exit (Unit {0}) × W)
    → IsDefined r
    → (b : Bool) × (w : W) × (tried r ≡ (ok b, w))
tried-IsDefined (ok u, w) h = (true, w, refl)
tried-IsDefined (exception, w) h = (false, w, refl)
tried-IsDefined (undefined, w) h = absurd h

module _ (os : Os) where
  create_dir-IsDefined : (path : Bytes) (w : os.World) → IsDefined (create_dir os path w)
  unfolding create_dir
  create_dir-IsDefined path w = elim (Bool-cases (os.dir_exists path w).0) [
    | inl e ↦ rw e tt
    | inr e ↦ rw e (check-IsDefined _ _)
  ]

  make_dirs-IsDefined : (front rest : Bytes) (w : os.World) → IsDefined (make_dirs os front rest w)
  unfolding make_dirs
  make_dirs-IsDefined front [] w = create_dir-IsDefined front w
  make_dirs-IsDefined front (c ∷ []) w = elim (Bool-cases (c == b'/')) [
    | inl e ↦ rw e (create_dir-IsDefined front w)
    | inr e ↦ rw e (create_dir-IsDefined (front ++ c ∷ []) w)
  ]
  make_dirs-IsDefined front (c ∷ d ∷ rest) w = elim (Bool-cases (c == b'/')) [
    | inl e ↦ rw e (
        continue-IsDefined (create_dir os front w) _ (create_dir-IsDefined front w)
          (λ u. make_dirs-IsDefined (front ++ c ∷ []) (d ∷ rest)))
    | inr e ↦ rw e (make_dirs-IsDefined (front ++ c ∷ []) (d ∷ rest) w)
  ]

  mkdir_r-IsDefined : (path : Bytes) (w : os.World) → IsDefined (mkdir_r os path w)
  unfolding mkdir_r
  mkdir_r-IsDefined [] w = tt
  mkdir_r-IsDefined (c ∷ rest) w = elim (Bool-cases (c == b'/')) [
    | inl e ↦ rw e (make_dirs-IsDefined (c ∷ []) rest w)
    | inr e ↦ rw e (make_dirs-IsDefined [] (c ∷ rest) w)
  ]

  module _ (config : CgroupConfig) where
    move_to_cgroup-IsDefined :
        (dir : Bytes) (app : App) (w : os.World)
        → IsDefined (move_to_cgroup os config dir app.pid w)
    unfolding move_to_cgroup
    move_to_cgroup-IsDefined dir app w = check-IsDefined _ _

    -- What follows the creation of the directory.
    move_lem :
        (app : App) (dir : Bytes) (made : Bool) (w : os.World)
        → (b : Bool) × (w' : os.World) × (move_app os config app dir made w
            ≡ (ok (b, (if b then some dir else none)), w'))
    unfolding move_app
    move_lem app dir false w = (false, w, refl)
    move_lem app dir true w =
        let (b, v, e) =
          tried-IsDefined (move_to_cgroup os config dir app.pid w)
            (move_to_cgroup-IsDefined dir app w) in
        (b, v, rw e refl)

    -- For an app that is moved to a directory of its own, addApplication returns whatever the file
    -- system answers, with the app's directory stored if and only if it returns true, and
    -- removeApplication returns as well.
    pub add_application-total :
        (app : App) (w : os.World)
        → do_not_move os config app.app_type ≡ false
        → ((b : Bool) × (w' : os.World) × (add_application os config app w
              ≡ (ok (b, (if b then some (konro_app_dir os config app.pid) else none)), w')))
          × ((b : Bool) × (w' : os.World) × (remove_application os config app w ≡ (ok b, w')))
    unfolding add_application remove_application get_cgroup_app_dir remove_dir
    add_application-total app w h =
        let dir : Bytes = konro_app_dir os config app.pid in
        let (made, v, e) = tried-IsDefined (mkdir_r os dir w) (mkdir_r-IsDefined dir w) in
        rw (h, e)
          (move_lem app dir made v, tried-IsDefined (remove_dir os dir w) (check-IsDefined _ _))
