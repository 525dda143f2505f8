-- ===== src/Sai.antt =====
-- rm/librmcommon/sai.h and sai.cpp: the baseline of one quantity, and the Security Anomaly Index.
pub mod Bounds
use konro.Base.{ℕ, ◌+◌, Bool, ltb, ◌==◌, not, if◌then◌else◌}
use konro.Float.{Float}
use konro.PolicyManager.{SecurityFactors}

-- Ewma::WARMUP
abbrev pub warmup : ℕ
warmup = 5

module _ (fl : Float) where
  open fl use {F, literal, add, sub, mul, div, neg, sqrt, exp, is_finite, flt, fge}

  pub record Ewma : Type 0 where
    pub mean : F
    pub var : F
    pub count : ℕ

  abbrev pub new_ewma : Ewma
  new_ewma = record { mean = literal 0 1; var = literal 0 1; count = 0 }

  unfoldable pub ewma_update : F → F → Ewma → Ewma
  ewma_update x alpha e =
      let d = sub x e.mean in
      if e.count == 0 then record { mean = x; var = literal 0 1; count = e.count + 1 } else record {
        mean = add e.mean (mul alpha d);
        var = mul (sub (literal 1 1) alpha) (add e.var (mul (mul alpha d) d));
        count = e.count + 1;
      }

  unfoldable pub warming : Ewma → Bool
  warming e = ltb e.count warmup

  unfoldable pub deviation : F → Ewma → F
  unfolding warming
  deviation x e =
      let sd = add (sqrt e.var) (literal 1 1000000) in
      let z = div (sub x e.mean) sd in
      if warming e
      then literal 0 1
      else if fge (literal 0 1) z
      then literal 0 1
      else sub (literal 1 1) (exp (mul (neg z) (literal 5 10)))

  -- The weights of the factors, under the factors' names.
  abbrev pub SaiWeights : Type 0
  SaiWeights = SecurityFactors fl

  abbrev pub default_weights : SaiWeights
  default_weights = record {
    fanout = literal 30 100;
    half_open = literal 25 100;
    fork_rate = literal 15 100;
    new_exec = literal 20 100;
    cpu_burst = literal 10 100;
    egress = literal 15 100;
    mem_growth = literal 10 100;
    raw_socket = literal 20 100;
  }

  -- std::max(0, std::min(1, v)): std::max and std::min return their first argument on a tie.
  unfoldable pub clamp01 : F → F
  clamp01 v =
      let m = if flt v (literal 1 1) then v else literal 1 1 in
      if flt (literal 0 1) m then m else literal 0 1

  unfoldable pub weighted_sum : SecurityFactors fl → SaiWeights → F
  weighted_sum f w =
      add
        (add
          (add
            (add
              (add
                (add (add (mul w.fanout f.fanout) (mul w.half_open f.half_open))
                  (mul w.fork_rate f.fork_rate))
                (mul w.new_exec f.new_exec))
              (mul w.cpu_burst f.cpu_burst))
            (mul w.egress f.egress))
          (mul w.mem_growth f.mem_growth))
        (mul w.raw_socket f.raw_socket)

  unfoldable pub compute_sai : SecurityFactors fl → SaiWeights → F
  unfolding weighted_sum clamp01
  compute_sai f w = let s = weighted_sum f w in if not (is_finite s) then literal 0 1 else clamp01 s
