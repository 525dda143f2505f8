-- ===== src/AppMapping/Cache.antt =====
-- What the cache of AppMapping returns after a write.
use konro.Base.{ℕ, ◌^◌, ◌<◌, ◌≡◌, ◌≢◌, ◌↔◌, refl, false, [], ◌∷◌, arith}
use konro.Base.Int.{pos, negsuc, eqb_ℤ, to_int, to_uint64}
use konro.Cpuset.{CpusetVector}
use konro.Effect.{ok}
use konro.Float.{Float}
use konro.AppMapping.{
  numeric_invalid, CgroupFiles, Context, get_pu_vector, set_pu_vector, get_cpu_max_cached,
  set_cpu_max_cached, get_max_memory, set_max_memory,
}

int_round_trip : (n : ℕ) → n < 2 ^ 63 → (to_uint64 (to_int (pos n)) ≡ n) ↔ (n < 2 ^ 31)
unfolding to_uint64 to_int
int_round_trip n h = ground arith

module _ (fl : Float) (files : CgroupFiles) {Own : Type 0} where
  -- PUs that were written without an exception are read back without a look at the files.
  get-set_pu_vector :
      (vec : CpusetVector) (c d : Context fl files Own)
      → vec ≢ []
      → set_pu_vector fl files vec c ≡ (ok tt, d)
      → get_pu_vector fl files d ≡ (ok vec, d)
  unfolding get_pu_vector set_pu_vector
  get-set_pu_vector [] c d h e = absurd (h refl)
  get-set_pu_vector (r ∷ vec) c d h e = ground arith

  -- So is a cpu.max, unless it is the number that stands for an invalid one.
  get-set_cpu_max :
      (band : ℕ) (c d : Context fl files Own)
      → band ≢ numeric_invalid
      → set_cpu_max_cached fl files band c ≡ (ok tt, d)
      → get_cpu_max_cached fl files d ≡ (ok band, d)
  unfolding get_cpu_max_cached set_cpu_max_cached
  get-set_cpu_max band c d h e = ground arith

  -- A memory limit that was written without an exception is read back through the int that caches
  -- it, unless that int is -1: a limit below 2 ^ 63 is read back as it was written exactly if it is
  -- below 2 ^ 31.
  pub get-set_max_memory :
      (n : ℕ) (c d : Context fl files Own)
      → n < 2 ^ 63
      → eqb_ℤ (to_int (pos n)) (negsuc 0) ≡ false
      → set_max_memory fl files n c ≡ (ok tt, d)
      → (get_max_memory fl files d ≡ (ok (to_uint64 (to_int (pos n))), d))
        × ((to_uint64 (to_int (pos n)) ≡ n) ↔ (n < 2 ^ 31))
  unfolding get_max_memory set_max_memory
  get-set_max_memory n c d h k e = (ground arith, int_round_trip n h)
