-- ===== src/Text/Decimal.antt =====
-- Reading a number back from its decimal digits.
use konro.Base.{
  ℕ, zero, suc, ◌+◌, ◌/◌, ◌%◌, ◌≤◌, ◌<◌, ◌≡◌, ◌∙◌, refl, inl, inr, true, false, [], ◌∷◌, ◌++◌,
  append_assoc, arith, ltb, Bool-cases, length, All, All-append,
}
use konro.Text.{Bytes, is_digit, accumulate, scan, digits, print_ℕ}

scan_last :
    (lim n : ℕ) (rest : Bytes)
    → n ≤ lim
    → scan lim (n / 10) ((b'0' + n % 10) ∷ rest) ≡ scan lim n rest
unfolding scan
scan_last lim n rest h = ground arith

scan_first :
    (lim n : ℕ) (rest : Bytes) → n ≤ lim → n < 10 → scan lim 0 ((b'0' + n) ∷ rest) ≡ scan lim n rest
unfolding scan
scan_first lim n rest h k = ground arith

scan-digits :
    (lim f n : ℕ) (rest : Bytes)
    → n < f
    → n ≤ lim
    → scan lim 0 (digits f n ++ rest) ≡ scan lim n rest
unfolding digits
scan-digits lim zero n rest h k = absurd (omega arith)
scan-digits lim (suc f) n rest h k = elim (Bool-cases (ltb n 10)) [
  | inl e ↦ rw e (scan_first lim n rest k (ground arith))
  | inr e ↦
      rw (e, append_assoc)
        (scan-digits lim f (n / 10) ((b'0' + n % 10) ∷ rest) (ground arith) (ground arith)
          ∙ scan_last lim n rest k)
]

-- Reading the print of a number gives the number and what follows it.
pub scan-print_ℕ :
    (lim n : ℕ) (rest : Bytes) → n ≤ lim → scan lim 0 (print_ℕ n ++ rest) ≡ scan lim n rest
unfolding print_ℕ
scan-print_ℕ lim n rest h = scan-digits lim (suc n) n rest (omega arith) h

-- A text that does not begin with a digit.
abbrev pub NoDigit : Bytes → Type 0
NoDigit [] = Unit {0}
NoDigit (c ∷ s) = is_digit c ≡ false

pub scan-NoDigit : (lim n : ℕ) (rest : Bytes) → NoDigit rest → scan lim n rest ≡ (n, rest)
unfolding scan
scan-NoDigit lim n [] h = refl
scan-NoDigit lim n (c ∷ s) h = rw h

pub scan_lem :
    (lim n : ℕ) (rest : Bytes) → n ≤ lim → NoDigit rest → scan lim 0 (print_ℕ n ++ rest) ≡ (n, rest)
scan_lem lim n rest h k = scan-print_ℕ lim n rest h ∙ scan-NoDigit lim n rest k

digits-head : (f n : ℕ) → n < f → (c : ℕ) × (s : Bytes) × (digits f n ≡ c ∷ s) × (is_digit c ≡ true)
unfolding digits
digits-head zero n h = absurd (omega arith)
digits-head (suc f) n h = elim (Bool-cases (ltb n 10)) [
  | inl e ↦ (b'0' + n, [], rw e refl, ground arith)
  | inr e ↦
      let (c, s, p, d) = digits-head f (n / 10) (ground arith) in
      (c, s ++ (b'0' + n % 10) ∷ [], rw (e, p) refl, d)
]

-- The print of a number begins with a digit.
pub print_ℕ-head : (n : ℕ) → (c : ℕ) × (s : Bytes) × (print_ℕ n ≡ c ∷ s) × (is_digit c ≡ true)
unfolding print_ℕ
print_ℕ-head n = digits-head (suc n) n (omega arith)

-- `scan` does not lengthen the text.
pub length-scan : (lim n : ℕ) (s : Bytes) → length (scan lim n s).1 ≤ length s
unfolding scan
length-scan lim n [] = omega arith
length-scan lim n (c ∷ s) = elim (Bool-cases (is_digit c)) [
  | inl e ↦ rw e (omega (arith, length-scan lim (accumulate lim n c) s))
  | inr e ↦ rw e (omega arith)
]

pub length-scan_digit :
    (lim n c : ℕ) (s : Bytes) → is_digit c ≡ true → length (scan lim n (c ∷ s)).1 ≤ length s
unfolding scan
length-scan_digit lim n c s e = rw e (length-scan lim (accumulate lim n c) s)

digits-All :
    (P : ℕ → Type 0) → ((d : ℕ) → d < 10 → P (b'0' + d)) → (f n : ℕ) → n < f → All P (digits f n)
unfolding digits
digits-All P h zero n k = tt
digits-All P h (suc f) n k = elim (Bool-cases (ltb n 10)) [
  | inl e ↦ rw e (h n (ground arith), tt)
  | inr e ↦ rw e (
      All-append P (digits f (n / 10)) _ (digits-All P h f (n / 10) (ground arith))
        (h (n % 10) (omega arith), tt))
]

-- What holds of the ten digits holds of every character of a number.
pub print_ℕ-All : (P : ℕ → Type 0) → ((d : ℕ) → d < 10 → P (b'0' + d)) → (n : ℕ) → All P (print_ℕ n)
unfolding print_ℕ
print_ℕ-All P h n = digits-All P h (suc n) n (omega arith)
