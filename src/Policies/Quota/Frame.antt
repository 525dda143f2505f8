-- ===== src/Policies/Quota/Frame.antt =====
-- What the two quota functions leave alone of the mapping (increaseCPUquota, decreaseCPUquota).
use konro.Base.{ℕ, ◌≡◌, true, false, leb, ◌==◌}
use konro.Base.Int.{hundred, to_uint64}
use konro.AppMapping.{numeric_max, CgroupFiles, AppMapping}
use konro.AppMapping.Frame.{
  Keeps, bind-Keeps, then-Keeps, if-Keeps, pure-Keeps, count_pus-Keeps, set_cpu_max-Keeps,
  get_cpu_max-Keeps,
}
use konro.Float.{Float}
use konro.Policies.Quota.{raise_band, increase_cpu_quota, lower_band, decrease_cpu_quota}

module _ {fl : Float} {files : CgroupFiles} {Own B : Type 0} {view : AppMapping fl → B}
    (cpu_max_hidden : (n : ℕ) (m : AppMapping fl) → view (record m { cpu_max = n }) ≡ view m) where
  pub increase_cpu_quota-Keeps :
      (scale : fl.F) → Keeps fl files Own view (increase_cpu_quota fl files scale)
  unfolding increase_cpu_quota raise_band
  increase_cpu_quota-Keeps scale = bind-Keeps (get_cpu_max-Keeps cpu_max_hidden) (λ band.
      bind-Keeps (count_pus-Keeps) (λ pus. if-Keeps (band == numeric_max) (pure-Keeps false) (
        if-Keeps (leb (to_uint64 (hundred pus)) band) (pure-Keeps false)
          (then-Keeps (set_cpu_max-Keeps cpu_max_hidden _) (pure-Keeps true)))))

  pub decrease_cpu_quota-Keeps :
      (scale : fl.F) → Keeps fl files Own view (decrease_cpu_quota fl files scale)
  unfolding decrease_cpu_quota lower_band
  decrease_cpu_quota-Keeps scale = bind-Keeps (get_cpu_max-Keeps cpu_max_hidden) (λ read.
      bind-Keeps (count_pus-Keeps) (λ pus.
        if-Keeps _ (pure-Keeps false)
          (then-Keeps (set_cpu_max-Keeps cpu_max_hidden _) (pure-Keeps true))))
