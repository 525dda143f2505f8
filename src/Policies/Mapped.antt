-- ===== src/Policies/Mapped.antt =====
-- A policy works on a mapping, its own fields and the files of cgroups: how its methods are called
-- through the interface, and a view that shows none of the resources.
use konro.Base.{ℕ, ◌≡◌, refl}
use konro.Base.Int.{ℤ}
use konro.App.{App}
use konro.AppMapping.{CgroupFiles, AppMapping, Context, set_last_feedback}
use konro.AppMapping.Frame.{Keeps, update-Keeps}
use konro.Cpuset.{CpusetVector}
use konro.Effect.{M}
use konro.Float.{Float}
use konro.PolicyManager.{Done}

-- The view shows none of the resources, which every operation may change.
pub record Hides {B : Type 0} (fl : Float) (view : AppMapping fl → B) : Type 0 where
  pub pu_vec : (v : CpusetVector) (m : AppMapping fl) → view (record m { pu_vec = v }) ≡ view m
  pub cpu_max : (n : ℕ) (m : AppMapping fl) → view (record m { cpu_max = n }) ≡ view m
  pub last_feedback : (n : ℤ) (m : AppMapping fl) → view (record m { last_feedback = n }) ≡ view m
  pub baseline_pids : (n : ℤ) (m : AppMapping fl) → view (record m { baseline_pids = n }) ≡ view m

abbrev pub app_of : {fl : Float} → AppMapping fl → App
app_of m = m.app

abbrev pub app-Hides : {fl : Float} → Hides fl app_of
app-Hides = record {
  pu_vec = λ v m. refl;
  cpu_max = λ n m. refl;
  last_feedback = λ n m. refl;
  baseline_pids = λ n m. refl;
}

module _ {fl : Float} {files : CgroupFiles} {Policy : Type 0} where
  -- A method that is called with a mapping. What lives as long as the policy is its fields and the
  -- files.
  abbrev pub called :
      M (Context fl files Policy) (Unit {0})
      → AppMapping fl
      → Policy × files.World
      → Done fl (Policy × files.World)
  called m mapping s =
      let r = m (record { mapping = mapping; own = s.0; world = s.1 }) in
      (r.0, r.1.mapping, (r.1.own, r.1.world))

  pub called-app :
      {m : M (Context fl files Policy) (Unit {0})} (mapping : AppMapping fl)
      (s : Policy × files.World)
      → Keeps fl files Policy app_of m
      → (called m mapping s).1.app ≡ mapping.app
  called-app mapping s h = h.kept (record { mapping = mapping; own = s.0; world = s.1 })

  pub set_last_feedback-Keeps :
      {B : Type 0} {view : AppMapping fl → B} (n : ℤ)
      → Hides fl view
      → Keeps fl files Policy view (set_last_feedback fl files n)
  unfolding set_last_feedback
  set_last_feedback-Keeps n hides = update-Keeps _ (hides.last_feedback n)
