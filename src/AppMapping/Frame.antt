-- ===== src/AppMapping/Frame.antt =====
-- What the operations of an AppMapping leave alone, on every exit, however the files answer.
use konro.Base.{
  ℕ, ◌≡◌, refl, ◌∙◌, Bool, true, false, Option, none, some, ◌==◌, if◌then◌else◌, Bool-cases, inl,
  inr,
}
use konro.Base.Int.{pos, to_int}
use konro.App.{App}
use konro.Cpuset.{CpusetVector}
use konro.Effect.{
  M, Exit, ok, exception, undefined, Returns, continue, ◌>>=◌, ◌>>◌, pure, get, modify, in_bounds,
  caught, attempt,
}
use konro.Float.{Float}
use konro.AppMapping.{
  numeric_invalid, CgroupFiles, AppMapping, is_empty, Context, on_files, update, get_pu_vector,
  set_pu_vector, get_cpu_max_cached, set_cpu_max_cached, count_pus, get_current_pids, set_max_pids,
}

module _ (fl : Float) (files : CgroupFiles) (Own : Type 0) {B : Type 0}
    (view : AppMapping fl → B) where
  -- The view of the mapping is the same after the code as before it.
  pub record Keeps {A : Type 0} (m : M (Context fl files Own) A) : Type 0 where
    pub kept : (c : Context fl files Own) → view (m c).1.mapping ≡ view c.mapping

  pub continue-Keeps :
      {A A' : Type 0} (r : Exit A × Context fl files Own) (f : A → M (Context fl files Own) A')
      (b : B)
      → view r.1.mapping ≡ b
      → ((a : A) → Keeps (f a))
      → view (continue r f).1.mapping ≡ b
  continue-Keeps (ok a, s) f b h k = (k a).kept s ∙ h
  continue-Keeps (exception, s) f b h k = h
  continue-Keeps (undefined, s) f b h k = h

  pub caught-Keeps :
      (r : Exit (Unit {0}) × Context fl files Own) → view (caught r).1.mapping ≡ view r.1.mapping
  caught-Keeps (ok a, s) = refl
  caught-Keeps (exception, s) = refl
  caught-Keeps (undefined, s) = refl

  pub kept-Returns :
      {A : Type 0} (b : B) (r : Exit A × Context fl files Own)
      → view r.1.mapping ≡ b
      → Returns (λ a d. view d.mapping ≡ b) r
  unfolding Returns
  kept-Returns b (ok a, d) h = h
  kept-Returns b (exception, d) h = tt
  kept-Returns b (undefined, d) h = tt

module _ {fl : Float} {files : CgroupFiles} {Own B : Type 0} {view : AppMapping fl → B} where
  pub bind-Keeps :
      {A A' : Type 0} {m : M (Context fl files Own) A} {f : A → M (Context fl files Own) A'}
      → Keeps fl files Own view m
      → ((a : A) → Keeps fl files Own view (f a))
      → Keeps fl files Own view (m >>= f)
  bind-Keeps {m = m} {f = f} h k = record {
    kept = λ c. continue-Keeps fl files Own view (m c) f (view c.mapping) (h.kept c) k;
  }

  pub then-Keeps :
      {A' : Type 0} {m : M (Context fl files Own) (Unit {0})} {k : M (Context fl files Own) A'}
      → Keeps fl files Own view m
      → Keeps fl files Own view k
      → Keeps fl files Own view (m >> k)
  then-Keeps h k = bind-Keeps h (λ _. k)

  pub if-Keeps :
      {A : Type 0} {m k : M (Context fl files Own) A} (t : Bool)
      → Keeps fl files Own view m
      → Keeps fl files Own view k
      → Keeps fl files Own view (if t then m else k)
  if-Keeps true h k = h
  if-Keeps false h k = k

  pub attempt-Keeps :
      {m : M (Context fl files Own) (Unit {0})}
      → Keeps fl files Own view m
      → Keeps fl files Own view (attempt m)
  attempt-Keeps {m = m} h = record { kept = λ c. caught-Keeps fl files Own view (m c) ∙ h.kept c }

  pub pure-Keeps : {A : Type 0} (a : A) → Keeps fl files Own view (pure a)
  pure-Keeps a = record { kept = λ c. refl }

  pub on_files-Keeps :
      {A : Type 0} (m : App → M files.World A) → Keeps fl files Own view (on_files fl files m)
  on_files-Keeps m = record { kept = λ c. refl }

  pub update-Keeps :
      (f : AppMapping fl → AppMapping fl)
      → ((m : AppMapping fl) → view (f m) ≡ view m)
      → Keeps fl files Own view (update fl files f)
  update-Keeps f h = record { kept = λ c. h c.mapping }

  pub own-Keeps :
      (f : Context fl files Own → Own)
      → Keeps fl files Own view (modify {S = Context fl files Own} (λ c. record c { own = f c }))
  own-Keeps f = record { kept = λ c. refl }

  pub get-Keeps : Keeps fl files Own view get
  get-Keeps = record { kept = λ c. refl }

  pub in_bounds-Keeps : {A : Type 0} (a : Option A) → Keeps fl files Own view (in_bounds a)
  in_bounds-Keeps none = record { kept = λ c. refl }
  in_bounds-Keeps (some a) = record { kept = λ c. refl }

  pub count_pus-Keeps : Keeps fl files Own view (count_pus fl files)
  unfolding count_pus
  count_pus-Keeps = record { kept = λ c. refl }

  pub set_max_pids-Keeps : (n : ℕ) → Keeps fl files Own view (set_max_pids fl files n)
  unfolding set_max_pids
  set_max_pids-Keeps n = on_files-Keeps (files.set_pids_max n)

  pub get_current_pids-Keeps : Keeps fl files Own view (get_current_pids fl files)
  unfolding get_current_pids
  get_current_pids-Keeps =
      bind-Keeps (on_files-Keeps files.get_pids_current) (λ n. pure-Keeps (to_int (pos n)))

  -- The cached PUs and the cached cpu.max, for a view that does not show them.
  module _
      (pu_vec_hidden : (vec : CpusetVector) (m : AppMapping fl)
        → view (record m { pu_vec = vec }) ≡ view m) where
    pub set_pu_vector-Keeps :
        (vec : CpusetVector) → Keeps fl files Own view (set_pu_vector fl files vec)
    unfolding set_pu_vector
    set_pu_vector-Keeps vec =
        then-Keeps (on_files-Keeps (files.set_cpus vec))
          (update-Keeps (λ m. record m { pu_vec = vec }) (pu_vec_hidden vec))

    pub get_pu_vector-Keeps : Keeps fl files Own view (get_pu_vector fl files)
    unfolding get_pu_vector
    get_pu_vector-Keeps = record {
      kept = λ c. elim (Bool-cases (is_empty c.mapping.pu_vec)) [
        | inl e ↦ rw e (
            (bind-Keeps (on_files-Keeps files.get_cpus_effective) (λ vec.
                then-Keeps (update-Keeps (λ m. record m { pu_vec = vec }) (pu_vec_hidden vec))
                  (pure-Keeps vec))).kept
              c)
        | inr e ↦ rw e refl
      ];
    }

  module _
      (cpu_max_hidden : (n : ℕ) (m : AppMapping fl)
        → view (record m { cpu_max = n }) ≡ view m) where
    pub set_cpu_max-Keeps : (n : ℕ) → Keeps fl files Own view (set_cpu_max_cached fl files n)
    unfolding set_cpu_max_cached
    set_cpu_max-Keeps n =
        then-Keeps (on_files-Keeps (files.set_cpu_max n))
          (update-Keeps (λ m. record m { cpu_max = n }) (cpu_max_hidden n))

    pub get_cpu_max-Keeps : Keeps fl files Own view (get_cpu_max_cached fl files)
    unfolding get_cpu_max_cached
    get_cpu_max-Keeps = record {
      kept = λ c. elim (Bool-cases (c.mapping.cpu_max == numeric_invalid)) [
        | inl e ↦ rw e (
            (bind-Keeps (on_files-Keeps files.get_cpu_max) (λ n.
                then-Keeps (update-Keeps (λ m. record m { cpu_max = n }) (cpu_max_hidden n))
                  (pure-Keeps n))).kept
              c)
        | inr e ↦ rw e refl
      ];
    }
