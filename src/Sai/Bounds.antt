-- ===== src/Sai/Bounds.antt =====
-- Where the SAI lies, and when a baseline reports no deviation.
use konro.Base.{
  ◌+◌, ◌<◌, ◌≡◌, ◌⊎◌, inl, inr, refl, true, List, [], ◌∷◌, length, ◌==◌, arith, lt→ltb, Bool-cases,
}
use konro.Float.{Float}
use konro.PolicyManager.{SecurityFactors}
use konro.Sai.{
  warmup, Ewma, new_ewma, ewma_update, warming, deviation, SaiWeights, weighted_sum, clamp01,
  compute_sai,
}

module _ (fl : Float) where
  open fl use {F, literal, flt, is_finite}

  -- A value that the state machine can compare: 0, or above 0 and either 1 or below 1.
  abbrev pub IsSai : F → Type 0
  IsSai s =
      (s ≡ literal 0 1)
      ⊎ ((flt (literal 0 1) s ≡ true) × ((s ≡ literal 1 1) ⊎ (flt s (literal 1 1) ≡ true)))

  clamp01-IsSai : (v : F) → IsSai (clamp01 fl v)
  unfolding clamp01
  clamp01-IsSai v = ground arith

  -- Whatever the factors and the weights are, infinite and undefined ones included, the SAI is 0, or
  -- above 0 and either 1 or below 1.
  pub compute_sai-IsSai : (f : SecurityFactors fl) (w : SaiWeights fl) → IsSai (compute_sai fl f w)
  unfolding compute_sai
  compute_sai-IsSai f w = elim (Bool-cases (is_finite (weighted_sum fl f w))) [
    | inl e ↦ rw e (clamp01-IsSai (weighted_sum fl f w))
    | inr e ↦ rw e (inl refl)
  ]

  -- The baseline after the samples.
  pub learned : F → List F → Ewma fl → Ewma fl
  learned alpha [] e = e
  learned alpha (x ∷ xs) e = learned alpha xs (ewma_update fl x alpha e)

  count-ewma_update : (x alpha : F) (e : Ewma fl) → (ewma_update fl x alpha e).count ≡ e.count + 1
  unfolding ewma_update
  count-ewma_update x alpha e = elim (Bool-cases (e.count == 0)) [
    | inl h ↦ rw h refl
    | inr h ↦ rw h refl
  ]

  count-learned :
      (alpha : F) (xs : List F) (e : Ewma fl) → (learned alpha xs e).count ≡ e.count + length xs
  unfolding learned
  count-learned alpha [] e = omega arith
  count-learned alpha (x ∷ xs) e =
      omega (arith, count-learned alpha xs (ewma_update fl x alpha e), count-ewma_update x alpha e)

  warming-learned :
      (alpha : F) (xs : List F)
      → length xs < warmup
      → warming fl (learned alpha xs (new_ewma fl)) ≡ true
  unfolding warming
  warming-learned alpha xs h = lt→ltb _ warmup (omega (arith, count-learned alpha xs (new_ewma fl)))

  -- A baseline reports no deviation until it has learned from five values, whatever they are.
  pub deviation-learned :
      (x alpha : F) (xs : List F)
      → length xs < 5
      → deviation fl x (learned alpha xs (new_ewma fl)) ≡ literal 0 1
  unfolding deviation
  deviation-learned x alpha xs h = rw (warming-learned alpha xs h) refl
