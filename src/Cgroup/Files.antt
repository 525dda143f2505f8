-- ===== src/Cgroup/Files.antt =====
-- What is written to a file of an app's cgroup is read back, through the path, the activation of the
-- controller and the text.
use konro.Base.{◌*◌, ◌<◌, ◌^◌, ◌≡◌, ◌≢◌, ◌⊎◌, refl, ap, true, false, some, [], ◌∷◌, ℕ}
use konro.App.{App}
use konro.Cgroup.{
  CgroupConfig, make_path, opened, konro_app_dir, do_not_move, get_line, set_value, set_freeze,
  check_activate_controller, util_get_line, write_value,
}
use konro.Cgroup.Controllers.{cpu_max_text, cpu_set_max, cpu_get_max}
use konro.Cgroup.Paths.{cpu_max_of-cpu_max_text}
use konro.Cgroup.Reads.{dir_lem}
use konro.Effect.{M, Exit, ok, exception, undefined, continue}
use konro.NumericValue.{numeric_max}
use konro.Os.{Os, Written, done, not_opened, not_written, check}
use konro.Text.{Bytes, codes}

-- Code that returns went through its first part.
continue_ok :
    {W A B : Type 0} (r : Exit A × W) (f : A → M W B) (b : B) (v : W)
    → continue r f ≡ (ok b, v)
    → (a : A) × (w : W) × (r ≡ (ok a, w)) × (f a w ≡ (ok b, v))
continue_ok (ok a, w) f b v h = (a, w, refl, h)
continue_ok (exception, w) f b v h = absurd cc
continue_ok (undefined, w) f b v h = absurd cc

written_lem :
    {W : Type 0} (r : Written × W) (v : W)
    → r.0 ≢ not_written
    → check (opened r.0) r.1 ≡ (ok tt, v)
    → r ≡ (done, v)
written_lem (done, w) v n h = ap (λ x. (done, x.1)) h
written_lem (not_opened, w) v n h = absurd cc
written_lem (not_written, w) v n h = absurd (n refl)

module _ (os : Os) (config : CgroupConfig) (app : App)
    (moves : do_not_move os config app.app_type ≡ false) where
  -- A file in the directory of the app.
  abbrev app_file : Bytes → Bytes
  app_file file = make_path (konro_app_dir os config app.pid) file

  get_line_lem :
      (name file text : Bytes) (v : os.World)
      → os.read_lines (app_file file) v ≡ (some (text ∷ []), v)
      → os.file_exists (app_file file) v ≡ (true, v)
      → get_line os config name file app v ≡ (ok text, v)
  unfolding get_line check_activate_controller util_get_line
  get_line_lem name file text v h k = rw (dir_lem os config app moves v, k, h) refl

  get_line-set_value :
      (name file text : Bytes) (w v : os.World)
      → ((w : os.World) → (os.write (app_file file) text w).0 ≢ not_written)
      → ((w v : os.World)
          → os.write (app_file file) text w ≡ (done, v)
          → (os.read_lines (app_file file) v ≡ (some (text ∷ []), v))
            × (os.file_exists (app_file file) v ≡ (true, v)))
      → set_value os config name file text app w ≡ (ok tt, v)
      → get_line os config name file app v ≡ (ok text, v)
  unfolding set_value write_value
  get_line-set_value name file text w v accepted kept h =
      let dir : Bytes = konro_app_dir os config app.pid in
      let h' = rw (dir_lem os config app moves w) at h in
      let (u, w', e, k) =
        continue_ok (check_activate_controller os config name file dir w) _ tt v h' in
      let d = written_lem (os.write (app_file file) text w') v (accepted w') k in
      let r = kept w' v d in get_line_lem name file text v r.0 r.1

  -- A freeze that returns is what cgroup.freeze of the app's directory then holds, where the kernel takes
  -- the text and gives it back.
  pub read-set_freeze :
      (w v : os.World)
      → ((w : os.World)
          → (os.write (app_file (codes "cgroup.freeze")) (codes "1") w).0 ≢ not_written)
      → ((w v : os.World)
          → os.write (app_file (codes "cgroup.freeze")) (codes "1") w ≡ (done, v)
          → os.read_lines (app_file (codes "cgroup.freeze")) v ≡ (some (codes "1" ∷ []), v))
      → set_freeze os config true app w ≡ (ok tt, v)
      → os.read_lines (app_file (codes "cgroup.freeze")) v ≡ (some (codes "1" ∷ []), v)
  unfolding set_freeze write_value
  read-set_freeze w v accepted kept h =
      let h' = rw (dir_lem os config app moves w) at h in
      kept w v
        (written_lem (os.write (app_file (codes "cgroup.freeze")) (codes "1") w) v (accepted w) h')

  -- Where the kernel takes the text that is written to cpu.max for a percentage, and gives it back as the
  -- line of that file: the percentage that setMax has set for an app in a directory of its own is what
  -- getMax returns, "max" included, unless its product with the period does not fit 64 bits.
  pub cpu_get_max-cpu_set_max :
      (p : ℕ) (w v : os.World)
      → ((w : os.World)
          → (os.write
              (make_path (konro_app_dir os config app.pid) (codes "cpu.max"))
              (cpu_max_text p)
              w).0
            ≢ not_written)
      → ((w v : os.World)
          → os.write
              (make_path (konro_app_dir os config app.pid) (codes "cpu.max"))
              (cpu_max_text p)
              w
            ≡ (done, v)
          → (os.read_lines (make_path (konro_app_dir os config app.pid) (codes "cpu.max")) v
              ≡ (some (cpu_max_text p ∷ []), v))
            × (os.file_exists (make_path (konro_app_dir os config app.pid) (codes "cpu.max")) v
                ≡ (true, v)))
      → (p * 100000 < 2 ^ 64) ⊎ (p ≡ numeric_max)
      → cpu_set_max os config p app w ≡ (ok tt, v)
      → cpu_get_max os config app v ≡ (ok p, v)
  unfolding cpu_set_max cpu_get_max
  cpu_get_max-cpu_set_max p w v accepted kept b h =
      rw
        (
          get_line-set_value (codes "cpu") (codes "cpu.max") (cpu_max_text p) w v accepted kept h,
          cpu_max_of-cpu_max_text p b,
        )
        refl
