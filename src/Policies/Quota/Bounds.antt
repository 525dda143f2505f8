-- ===== src/Policies/Quota/Bounds.antt =====
-- Where the two quota functions leave cpu.max (increaseCPUquota, decreaseCPUquota).
use konro.Base.{
  ℕ, ◌≡◌, refl, sym, subst, Bool, true, false, leb, ◌==◌, if◌then◌else◌, Bool-cases, inl, inr,
}
use konro.Base.Int.{pos, ◌≤ℤ◌, ◌<ℤ◌, ◌-ℤ◌, hundred, min_ℤ, max_ℤ, to_uint64}
use konro.Cpuset
use konro.Cpuset.{CpusetVector}
use konro.AppMapping.{
  numeric_max, CgroupFiles, Context, update, count_pus, get_cpu_max_cached, set_cpu_max_cached,
}
use konro.AppMapping.Frame.{get_cpu_max-Keeps, kept-Returns}
use konro.Effect.{
  Exit, ok, exception, undefined, Returns, continue-Returns, if-Returns, Returns-map, continue,
  pure,
}
use konro.Float.{Float}
use konro.Policies.Quota.{
  raise_band, increase_cpu_quota, lower_band, band_of, is_low, decrease_cpu_quota,
}
use konro.Policies.Quota.Limits.{raised_lem, lowered_lem, hundred-int, below_limit}

-- What the hypotheses on the PUs and on the scale give for the limit of an increase.
abbrev Fits : (fl : Float) → fl.F → CpusetVector → Type 0
Fits fl scale vec =
    (pos 0 ≤ℤ hundred (Cpuset.count_pus vec))
    × (hundred (Cpuset.count_pus vec) ≤ℤ pos 2147483647)
    × ((n : ℕ)
        → pos n <ℤ hundred (Cpuset.count_pus vec)
        → pos 0 ≤ℤ fl.trunc (fl.mul (fl.of_ℕ n) (fl.add (fl.literal 1 1) scale)))

module _ (fl : Float) (files : CgroupFiles) {Own : Type 0} where
  -- An increase that was made leaves at most 100 % of each of the PUs.
  unfoldable IsRaised : CpusetVector → Bool → Context fl files Own → Type 0
  IsRaised vec false d = Unit {0}
  IsRaised vec true d = pos d.mapping.cpu_max ≤ℤ hundred (Cpuset.count_pus vec)

  -- A decrease that was made leaves at least 100 % of all the PUs but one.
  unfoldable IsLowered : CpusetVector → Bool → Context fl files Own → Type 0
  IsLowered vec false d = Unit {0}
  IsLowered vec true d = hundred (Cpuset.count_pus vec -ℤ pos 1) ≤ℤ pos d.mapping.cpu_max

  written-Returns :
      (P : Bool → Context fl files Own → Type 0) (n : ℕ) (c : Context fl files Own)
      (r : Exit (Unit {0}) × files.World)
      → ((w : files.World)
          → P true (record c { mapping = record c.mapping { cpu_max = n }; world = w }))
      → Returns P (
          continue
            (continue
              (r.0, record c { world = r.1 })
              (λ u. update fl files (λ m. record m { cpu_max = n })))
            (λ u. pure true))
  unfolding Returns
  written-Returns P n c (ok u, w) h = h w
  written-Returns P n c (exception, w) h = tt
  written-Returns P n c (undefined, w) h = tt

  raise_band-IsRaised :
      (vec : CpusetVector) (cur : ℕ) (scale : fl.F) (d : Context fl files Own)
      → pos 0 ≤ℤ fl.trunc (fl.mul (fl.of_ℕ cur) (fl.add (fl.literal 1 1) scale))
      → pos 0 ≤ℤ hundred (Cpuset.count_pus vec)
      → hundred (Cpuset.count_pus vec) ≤ℤ pos 2147483647
      → Returns (IsRaised vec) (raise_band fl files cur (hundred (Cpuset.count_pus vec)) scale d)
  unfolding raise_band set_cpu_max_cached IsRaised
  raise_band-IsRaised vec cur scale d h k b =
      let new = fl.trunc (fl.mul (fl.of_ℕ cur) (fl.add (fl.literal 1 1) scale)) in
      let limit = hundred (Cpuset.count_pus vec) in
      let band = to_uint64 (min_ℤ new limit) in
      written-Returns (IsRaised vec) band d (files.set_cpu_max band d.mapping.app d.world)
        (λ w. raised_lem new limit h k b)

  lower_band-IsLowered :
      (vec : CpusetVector) (cur : ℕ) (scale : fl.F) (d : Context fl files Own)
      → ((x : fl.F) → fl.trunc x ≤ℤ pos 2147483647)
      → hundred (Cpuset.count_pus vec -ℤ pos 1) ≤ℤ pos 2147483647
      → Returns
          (IsLowered vec)
          (lower_band fl files cur (hundred (Cpuset.count_pus vec -ℤ pos 1)) scale d)
  unfolding lower_band set_cpu_max_cached IsLowered
  lower_band-IsLowered vec cur scale d h b =
      let new = fl.trunc (fl.mul (fl.of_ℕ cur) (fl.sub (fl.literal 1 1) scale)) in
      let limit = hundred (Cpuset.count_pus vec -ℤ pos 1) in
      let band = to_uint64 (max_ℤ new limit) in
      written-Returns (IsLowered vec) band d (files.set_cpu_max band d.mapping.app d.world)
        (λ w. lowered_lem new limit (h _) b)

  -- To read cpu.max through the cache leaves the PUs alone.
  read-Returns :
      (c : Context fl files Own)
      → Returns (λ band d. d.mapping.pu_vec ≡ c.mapping.pu_vec) (get_cpu_max_cached fl files c)
  read-Returns c =
      kept-Returns fl files Own (λ m. m.pu_vec) c.mapping.pu_vec (get_cpu_max_cached fl files c)
        ((get_cpu_max-Keeps {view = λ m. m.pu_vec} (λ n m. refl)).kept c)

  below_limit-IsRaised :
      (band : ℕ) (scale : fl.F) (d : Context fl files Own)
      → Fits fl scale d.mapping.pu_vec
      → Returns (IsRaised d.mapping.pu_vec) (
          (if band == numeric_max
              then pure false
              else if leb (to_uint64 (hundred (Cpuset.count_pus d.mapping.pu_vec))) band
              then pure false
              else raise_band fl files band (hundred (Cpuset.count_pus d.mapping.pu_vec)) scale)
            d)
  unfolding IsRaised Returns
  below_limit-IsRaised band scale d fits =
      let limit = hundred (Cpuset.count_pus d.mapping.pu_vec) in
      elim (Bool-cases (band == numeric_max)) [
        | inl m ↦ rw m tt
        | inr m ↦ elim (Bool-cases (leb (to_uint64 limit) band)) [
          | inl f ↦ rw (m, f) tt
          | inr f ↦
              rw (m, f)
                (raise_band-IsRaised d.mapping.pu_vec band scale d
                  (fits.2 band (below_limit limit band fits.0 fits.1 f)) fits.0 fits.1)
        ]
      ]

  increase_cpu_quota-IsRaised :
      (scale : fl.F) (c : Context fl files Own)
      → Fits fl scale c.mapping.pu_vec
      → Returns (IsRaised c.mapping.pu_vec) (increase_cpu_quota fl files scale c)
  unfolding increase_cpu_quota count_pus
  increase_cpu_quota-IsRaised scale c fits =
      let vec = c.mapping.pu_vec in
      continue-Returns (λ band d. d.mapping.pu_vec ≡ vec) (IsRaised vec)
        (get_cpu_max_cached fl files c) _ (read-Returns c)
        (λ band d e.
          Returns-map (IsRaised d.mapping.pu_vec) (IsRaised vec) _
            (below_limit-IsRaised band scale d (subst (Fits fl scale) (sym e) fits))
            (λ a x h. subst (λ v. IsRaised v a x) e h))

  decrease_cpu_quota-IsLowered :
      (scale : fl.F) (c : Context fl files Own)
      → ((x : fl.F) → fl.trunc x ≤ℤ pos 2147483647)
      → hundred (Cpuset.count_pus c.mapping.pu_vec -ℤ pos 1) ≤ℤ pos 2147483647
      → Returns (IsLowered c.mapping.pu_vec) (decrease_cpu_quota fl files scale c)
  unfolding decrease_cpu_quota count_pus IsLowered Returns
  decrease_cpu_quota-IsLowered scale c int fits =
      let vec = c.mapping.pu_vec in
      continue-Returns (λ band d. d.mapping.pu_vec ≡ vec) (IsLowered vec)
        (get_cpu_max_cached fl files c) _ (read-Returns c)
        (λ read d e.
          let pus = Cpuset.count_pus d.mapping.pu_vec in
          let limit = hundred (pus -ℤ pos 1) in
          Returns-map (IsLowered d.mapping.pu_vec) (IsLowered vec) _
            (if-Returns (IsLowered d.mapping.pu_vec) (pure false)
              (lower_band fl files (band_of read pus) limit scale) d
              (is_low (band_of read pus) limit) tt
              (lower_band-IsLowered d.mapping.pu_vec (band_of read pus) scale d int (
                subst (λ v. hundred (Cpuset.count_pus v -ℤ pos 1) ≤ℤ pos 2147483647) (sym e) fits)))
            (λ a x h. subst (λ v. IsLowered v a x) e h))

  -- Where the conversion of a float to int gives at most 2^31 - 1, the PUs of the app are counted
  -- without overflow and their hundredfold is an int, and a band below that, grown by the scale, is not
  -- below 0: from a mapping on which both return true, the increase leaves a cpu.max of at most 100 %
  -- for each PU of the app, the decrease one of at least 100 % for each PU but one.
  pub quota_bounds :
      (scale : fl.F) (c d e : Context fl files Own)
      → ((x : fl.F) → fl.trunc x ≤ℤ pos 2147483647)
      → pos 0 ≤ℤ Cpuset.count_pus c.mapping.pu_vec
      → Cpuset.count_pus c.mapping.pu_vec ≤ℤ pos 21474836
      → ((n : ℕ)
          → pos n <ℤ hundred (Cpuset.count_pus c.mapping.pu_vec)
          → pos 0 ≤ℤ fl.trunc (fl.mul (fl.of_ℕ n) (fl.add (fl.literal 1 1) scale)))
      → increase_cpu_quota fl files scale c ≡ (ok true, d)
      → decrease_cpu_quota fl files scale c ≡ (ok true, e)
      → (pos d.mapping.cpu_max ≤ℤ hundred (Cpuset.count_pus c.mapping.pu_vec))
        × (hundred (Cpuset.count_pus c.mapping.pu_vec -ℤ pos 1) ≤ℤ pos e.mapping.cpu_max)
  unfolding Returns IsRaised IsLowered
  quota_bounds scale c d e int low high grows p q =
      let fits = hundred-int (Cpuset.count_pus c.mapping.pu_vec) low high in
      (
        rw p at (increase_cpu_quota-IsRaised scale c (fits.0, fits.1, grows)),
        rw q at (decrease_cpu_quota-IsLowered scale c int fits.2),
      )
