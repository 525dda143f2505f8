-- ===== src/Cgroup/Reads.antt =====
-- The reads of the files of an app that has a directory of its own: an exception at worst.
use konro.Base.{
  ℕ, suc, ◌≡◌, refl, false, Option, none, some, List, [], ◌∷◌, ◌++◌, append_assoc, Bool-cases, inl,
  inr, length,
}
use konro.Base.Int.{ℤ}
use konro.App.{App}
use konro.Cgroup.{
  CgroupConfig, tsplit, drop, deeper, is_skipped, activate_rounds, activate_parts,
  activate_controller, do_not_move, konro_base_dir, konro_app_dir, get_cgroup_app_dir,
  check_activate_controller, util_get_line, util_get_content, get_line, get_content,
  get_content_as_map, line_of, lines_of, make_path,
}
use konro.Cgroup.Errors.{check-IsDefined}
use konro.Effect.{ok, IsDefined, continue-IsDefined}
use konro.Os.{Os, check}
use konro.Text.{Bytes, codes}

drop-append : {A : Type 0} (xs ys : List A) → drop (length xs) (xs ++ ys) ≡ ys
drop-append [] ys = refl
drop-append (x ∷ xs) ys = drop-append xs ys

module _ (os : Os) (cgroup : CgroupConfig) where
  rounds-IsDefined :
      (name : Bytes) (i : ℕ) (folder : Bytes) (parts : List Bytes) (w : os.World)
      → IsDefined (activate_rounds os cgroup name i folder parts w)
  unfolding activate_rounds
  rounds-IsDefined name i folder [] w = tt
  rounds-IsDefined name i folder (part ∷ []) w = tt
  rounds-IsDefined name i folder (part ∷ next ∷ parts) w = elim (Bool-cases (is_skipped i part)) [
    | inl e ↦ rw e (rounds-IsDefined name (suc i) (deeper folder part) (next ∷ parts) w)
    | inr e ↦ rw e (
        continue-IsDefined (check _ _) _ (check-IsDefined _ _)
          (λ u. rounds-IsDefined name (suc i) (deeper folder part) (next ∷ parts)))
  ]

  -- Below the base directory, the path of an app goes on with a separator.
  path_lem :
      (pid : ℤ) → (rest : Bytes) × (konro_app_dir os cgroup pid ≡ cgroup.base_dir ++ b'/' ∷ rest)
  unfolding konro_app_dir konro_base_dir
  path_lem pid = (_, append_assoc cgroup.base_dir (codes "/konro.slice") _)

  activate-IsDefined :
      (name : Bytes) (pid : ℤ) (w : os.World)
      → IsDefined (activate_controller os cgroup name (konro_app_dir os cgroup pid) w)
  unfolding activate_controller activate_parts tsplit
  activate-IsDefined name pid w =
      let (rest, e) = path_lem pid in
      rw (e, drop-append cgroup.base_dir (b'/' ∷ rest))
        (rounds-IsDefined name 0 cgroup.base_dir ([] ∷ tsplit b'/' rest) w)

  module _ (app : App) (moves : do_not_move os cgroup app.app_type ≡ false) where
    pub dir_lem :
        (w : os.World)
        → get_cgroup_app_dir os cgroup app w ≡ (ok (konro_app_dir os cgroup app.pid), w)
    unfolding get_cgroup_app_dir
    dir_lem w = rw moves refl

    check_activate-IsDefined :
        (name file : Bytes) (w : os.World)
        → IsDefined
            (check_activate_controller os cgroup name file (konro_app_dir os cgroup app.pid) w)
    unfolding check_activate_controller
    check_activate-IsDefined name file w =
        elim (Bool-cases (os.file_exists (make_path (konro_app_dir os cgroup app.pid) file) w).0) [
          | inl e ↦ rw e tt
          | inr e ↦ rw e (activate-IsDefined name app.pid _)
        ]

    line_of-IsDefined : {W : Type 0} (r : Option (List Bytes)) (w : W) → IsDefined (line_of r w)
    line_of-IsDefined none w = tt
    line_of-IsDefined (some l) w = tt

    lines_of-IsDefined : {W : Type 0} (r : Option (List Bytes)) (w : W) → IsDefined (lines_of r w)
    lines_of-IsDefined none w = tt
    lines_of-IsDefined (some l) w = tt

    pub get_line-IsDefined :
        (name file : Bytes) (w : os.World) → IsDefined (get_line os cgroup name file app w)
    unfolding get_line util_get_line
    get_line-IsDefined name file w = rw (dir_lem w) (
        continue-IsDefined (check_activate_controller os cgroup name file _ w) _
          (check_activate-IsDefined name file w) (λ u v. line_of-IsDefined _ _))

    pub get_content-IsDefined :
        (name file : Bytes) (w : os.World) → IsDefined (get_content os cgroup name file app w)
    unfolding get_content util_get_content
    get_content-IsDefined name file w = rw (dir_lem w) (
        continue-IsDefined (check_activate_controller os cgroup name file _ w) _
          (check_activate-IsDefined name file w) (λ u v. lines_of-IsDefined _ _))

    pub get_content_as_map-IsDefined :
        (name file : Bytes) (w : os.World)
        → IsDefined (get_content_as_map os cgroup name file app w)
    unfolding get_content_as_map
    get_content_as_map-IsDefined name file w = rw (dir_lem w) (
        continue-IsDefined (check_activate_controller os cgroup name file _ w) _
          (check_activate-IsDefined name file w)
          (λ u v.
            continue-IsDefined (get_content os cgroup name file app v) _
              (get_content-IsDefined name file v) (λ lines x. tt)))
