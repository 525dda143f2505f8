-- ===== src/AppMapping/Writes.antt =====
-- What holds after a write of the cache that returns: the field has the value, the files are as the
-- controller's write has left them, and the rest is as it was.
use konro.Base.{ℕ, ◌≡◌, refl}
use konro.Base.Int.{ℤ, pos, to_int}
use konro.App.{App}
use konro.Cpuset.{CpusetVector}
use konro.Effect.{M, Exit, ok, exception, undefined, Returns, ◌>>=◌, ◌>>◌, continue-Returns}
use konro.Float.{Float}
use konro.AppMapping.{
  CgroupFiles, Context, on_files, update, set_pu_vector, set_cpu_max_cached, set_max_pids,
  get_current_pids,
}

module _ {fl : Float} {files : CgroupFiles} {Own : Type 0} where
  pub bind-Returns :
      {A B : Type 0} (Q : B → Context fl files Own → Type 0) (m : M (Context fl files Own) A)
      (k : A → M (Context fl files Own) B) (c : Context fl files Own)
      → Returns (λ a d. Returns Q (k a d)) (m c)
      → Returns Q ((m >>= k) c)
  bind-Returns Q m k c h = continue-Returns (λ a d. Returns Q (k a d)) Q (m c) k h (λ a d i. i)

  pub then-Returns :
      {A : Type 0} (Q : A → Context fl files Own → Type 0) (m : M (Context fl files Own) (Unit {0}))
      (k : M (Context fl files Own) A) (c : Context fl files Own)
      → Returns (λ u d. Returns Q (k d)) (m c)
      → Returns Q ((m >> k) c)
  then-Returns Q m k c h = bind-Returns Q m (λ u. k) c h

  exit_of_files :
      {A : Type 0} (P : A → Context fl files Own → Type 0) (c : Context fl files Own)
      (r : Exit A × files.World)
      → ((a : A) (w : files.World) → r ≡ (ok a, w) → P a (record c { world = w }))
      → Returns P (r.0, record c { world = r.1 })
  unfolding Returns
  exit_of_files P c (ok a, w) h = h a w refl
  exit_of_files P c (exception, w) h = tt
  exit_of_files P c (undefined, w) h = tt

  pub on_files-Returns :
      {A : Type 0} (P : A → Context fl files Own → Type 0) (m : App → M files.World A)
      (c : Context fl files Own)
      → ((a : A) (w : files.World)
          → m c.mapping.app c.world ≡ (ok a, w)
          → P a (record c { world = w }))
      → Returns P (on_files fl files m c)
  on_files-Returns P m c h = exit_of_files P c (m c.mapping.app c.world) h

  pub get_current_pids-Returns :
      (P : ℤ → Context fl files Own → Type 0) (c : Context fl files Own)
      → ((n : ℕ) (w : files.World)
          → files.get_pids_current c.mapping.app c.world ≡ (ok n, w)
          → P (to_int (pos n)) (record c { world = w }))
      → Returns P (get_current_pids fl files c)
  unfolding get_current_pids Returns
  get_current_pids-Returns P c h =
      bind-Returns P (on_files fl files files.get_pids_current) _ c
        (on_files-Returns _ files.get_pids_current c h)

  module _ (P : Unit {0} → Context fl files Own → Type 0) (c : Context fl files Own) where
    pub set_cpu_max-Returns :
        (n : ℕ)
        → ((w : files.World)
            → files.set_cpu_max n c.mapping.app c.world ≡ (ok tt, w)
            → P tt (record c { mapping = record c.mapping { cpu_max = n }; world = w }))
        → Returns P (set_cpu_max_cached fl files n c)
    unfolding set_cpu_max_cached Returns
    set_cpu_max-Returns n h =
        then-Returns P (on_files fl files (files.set_cpu_max n))
          (update fl files (λ m. record m { cpu_max = n })) c
          (on_files-Returns _ (files.set_cpu_max n) c (λ u w e. h w e))

    pub set_pu_vector-Returns :
        (vec : CpusetVector)
        → ((w : files.World)
            → files.set_cpus vec c.mapping.app c.world ≡ (ok tt, w)
            → P tt (record c { mapping = record c.mapping { pu_vec = vec }; world = w }))
        → Returns P (set_pu_vector fl files vec c)
    unfolding set_pu_vector Returns
    set_pu_vector-Returns vec h =
        then-Returns P (on_files fl files (files.set_cpus vec))
          (update fl files (λ m. record m { pu_vec = vec })) c
          (on_files-Returns _ (files.set_cpus vec) c (λ u w e. h w e))

    pub set_max_pids-Returns :
        (n : ℕ)
        → ((w : files.World)
            → files.set_pids_max n c.mapping.app c.world ≡ (ok tt, w)
            → P tt (record c { world = w }))
        → Returns P (set_max_pids fl files n c)
    unfolding set_max_pids
    set_max_pids-Returns n h = on_files-Returns P (files.set_pids_max n) c (λ u w e. h w e)
