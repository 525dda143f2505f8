-- ===== src/CpusetText/Total.antt =====
-- The loop of parseCpuSet ends.
use konro.Base.{
  ℕ, zero, suc, ◌≤◌, ◌<◌, ◌≡◌, ◌≢◌, ◌⊎◌, refl, inl, inr, true, Option, none, some, [], ◌∷◌, ◌++◌,
  arith, Bool-cases, Option-cases, length, ◌==◌,
}
use konro.Base.Int.{ℤ}
use konro.Cpuset.{CpusetVector}
use konro.Text.{Bytes, is_digit, long_max}
use konro.Text.Decimal.{length-scan_digit}
use konro.CpusetText.{
  Parse, parsed, invalid_format, unfinished, cpu_number, range_end, second_number, after_number,
  parse_item, parse_loop, parse_cpu_set,
}

-- What a round leaves to read is shorter than the text.
abbrev pub Shortens : ℕ → Option ((ℤ × ℤ) × Bytes) → Type 0
Shortens n none = Unit {0}
Shortens n (some (r, p)) = length p ≤ n

range_end-Shortens : (n : ℕ) (r : ℤ × ℤ) (s : Bytes) → length s ≤ n → Shortens n (range_end r s)
unfolding range_end
range_end-Shortens n r [] h = h
range_end-Shortens n r (c ∷ s) h = elim (Bool-cases (c == b',')) [
  | inl e ↦ rw e (omega arith)
  | inr e ↦ rw e tt
]

length-cpu_number :
    (c : ℕ) (s : Bytes) → is_digit c ≡ true → length (cpu_number (c ∷ s)).1 ≤ length s
unfolding cpu_number
length-cpu_number c s e = length-scan_digit long_max 0 c s e

second_number-Shortens : (n : ℕ) (a : ℤ) (s : Bytes) → length s ≤ n → Shortens n (second_number a s)
unfolding second_number
second_number-Shortens n a [] h = tt
second_number-Shortens n a (c ∷ s) h = elim (Bool-cases (is_digit c)) [
  | inl e ↦
      let (b, endptr) = cpu_number (c ∷ s) in rw e (range_end-Shortens n (a, b) endptr (shorter e))
  | inr e ↦ rw e tt
]
  where
    shorter : is_digit c ≡ true → length (cpu_number (c ∷ s)).1 ≤ n
    shorter e = omega (arith, length-cpu_number c s e)

after_number-Shortens : (n : ℕ) (a : ℤ) (s : Bytes) → length s ≤ n → Shortens n (after_number a s)
unfolding after_number
after_number-Shortens n a [] h = h
after_number-Shortens n a (c ∷ s) h = elim (Bool-cases (c == b',')) [
  | inl e ↦ rw e (omega arith)
  | inr e ↦ elim (Bool-cases (c == b'-')) [
    | inl d ↦ rw (e, d) (second_number-Shortens n a s (omega arith))
    | inr d ↦ rw (e, d) tt
  ]
]

parse_item-Shortens : (c : ℕ) (s : Bytes) → Shortens (length s) (parse_item (c ∷ s))
unfolding parse_item
parse_item-Shortens c s = elim (Bool-cases (is_digit c)) [
  | inl e ↦ rw e (after_number-Shortens (length s) _ _ (length-cpu_number c s e))
  | inr e ↦ rw e tt
]

-- A round that reads a range moves on.
pub parse_item_shorter :
    (p : Bytes) (r : ℤ × ℤ) (rest : Bytes) → parse_item p ≡ some (r, rest) → length rest < length p
parse_item_shorter [] r rest e = unfold parse_item in absurd (cc)
parse_item_shorter (c ∷ s) r rest e = let k = rw e at (parse_item-Shortens c s) in omega arith

parse_loop-ne-unfinished :
    (f : ℕ) (vec : CpusetVector) (p : Bytes) → length p < f → parse_loop f vec p ≢ unfinished
unfolding parse_loop
parse_loop-ne-unfinished zero vec p h = absurd (omega arith)
parse_loop-ne-unfinished (suc f) vec [] h = λ e. cc
parse_loop-ne-unfinished (suc f) vec (c ∷ s) h = elim (Option-cases (parse_item (c ∷ s))) [
  | inl e ↦ rw (e, parse_loop) (λ x. cc)
  | inr ((r, p), e) ↦
      rw (e, parse_loop)
        (parse_loop-ne-unfinished f (vec ++ r ∷ []) p
          (omega (arith, parse_item_shorter (c ∷ s) r p e)))
]

-- Every text is parsed or refused: the loop of `parseCpuSet` ends within its rounds.
parse_cpu_set-total :
    (line : Bytes)
    → ((vec : CpusetVector) × (parse_cpu_set line ≡ parsed vec))
      ⊎ (parse_cpu_set line ≡ invalid_format)
unfolding parse_cpu_set
parse_cpu_set-total line =
    settle (parse_cpu_set line) (parse_loop-ne-unfinished (suc (length line)) [] line (omega arith))
  where
    settle :
        (r : Parse)
        → r ≢ unfinished
        → ((vec : CpusetVector) × (r ≡ parsed vec)) ⊎ (r ≡ invalid_format)
    settle (parsed vec) h = inl (vec, refl)
    settle invalid_format h = inr refl
    settle unfinished h = absurd (h refl)
