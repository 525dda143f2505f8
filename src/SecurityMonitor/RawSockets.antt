-- ===== src/SecurityMonitor/RawSockets.antt =====
-- How often raw sockets are reported for one app.
use konro.Base.{
  ◌≡◌, refl, Bool, true, false, not, ◌&&◌, ◌⊎◌, inl, inr, List, [], ◌∷◌, All, if◌then◌else◌,
}
use konro.Float.{Float}
use konro.SecurityMonitor.{MonitorConfig, Sample, AppBaseline, assess, observe, raw_fires, one_if}
use konro.Sai.{warming}

module _ (fl : Float) (config : MonitorConfig fl) where
  open fl use {F, literal, of_ℕ}

  -- The factor `rawSocket` of scan after scan of one app.
  pub raw_factors : List Sample → AppBaseline fl → List F
  unfolding assess
  raw_factors [] base = []
  raw_factors (s ∷ ss) base = let r = assess fl config s base in r.1.raw_socket ∷ raw_factors ss r.0

  -- 0 at first, then at most one 1, then 0.
  abbrev pub AtMostOnce : List F → Type 0
  AtMostOnce [] = Unit {0}
  AtMostOnce (x ∷ xs) =
      (x ≡ literal 0 1) × AtMostOnce xs ⊎ (x ≡ literal 1 1) × All (λ y. y ≡ literal 0 1) xs

  quiet : (a b fired : Bool) → fired ≡ true → one_if fl (a && b && not fired) ≡ literal 0 1
  quiet true true fired h = rw h refl
  quiet true false fired h = refl
  quiet false b fired h = refl

  stays : (a b fired : Bool) → fired ≡ true → (if a && b && not fired then true else fired) ≡ true
  stays true true fired h = rw h refl
  stays true false fired h = h
  stays false b fired h = h

  fired_lem :
      (ss : List Sample) (base : AppBaseline fl)
      → base.raw_socket_fired ≡ true
      → All (λ y. y ≡ literal 0 1) (raw_factors ss base)
  unfolding raw_factors assess
  fired_lem [] base h = tt
  fired_lem (s ∷ ss) base h =
      let warm = warming fl (observe fl config.alpha (of_ℕ s.processes) base.fork_rate).1 in
      (
        quiet s.raw_sockets (not warm) base.raw_socket_fired h,
        fired_lem ss (assess fl config s base).0
            (stays s.raw_sockets (not warm) base.raw_socket_fired h),
      )

  -- One scan before the others, by whether it reports.
  split_lem :
      (ss : List Sample) (base : AppBaseline fl) (fires fired : Bool)
      → base.raw_socket_fired ≡ (if fires then true else fired)
      → AtMostOnce (raw_factors ss base)
      → AtMostOnce (one_if fl fires ∷ raw_factors ss base)
  split_lem ss base true fired h k = inr (refl, fired_lem ss base h)
  split_lem ss base false fired h k = inl (refl, k)

  -- Over any scans of an app from any baseline, the factor of raw sockets is 1 at most once, and is 0
  -- in all other scans.
  pub raw_factors-AtMostOnce :
      (ss : List Sample) (base : AppBaseline fl) → AtMostOnce (raw_factors ss base)
  unfolding raw_factors assess
  raw_factors-AtMostOnce [] base = tt
  raw_factors-AtMostOnce (s ∷ ss) base =
      let warm = warming fl (observe fl config.alpha (of_ℕ s.processes) base.fork_rate).1 in
      split_lem ss (assess fl config s base).0 (raw_fires fl warm s base) base.raw_socket_fired refl
        (raw_factors-AtMostOnce ss (assess fl config s base).0)
