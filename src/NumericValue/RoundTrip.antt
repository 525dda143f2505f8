-- ===== src/NumericValue/RoundTrip.antt =====
-- What is printed is read back.
use konro.Base.{
  ℕ, ◌+◌, ◌^◌, ◌<◌, ◌≡◌, ◌≢◌, ◌∙◌, refl, ap, sym, true, false, some, [], ◌∷◌, append-nil, ◌==◌,
  arith, Bool-cases, inl, inr, ==_iff,
}
use konro.NumericValue.{
  numeric_max, numeric_invalid, skip_spaces, unsigned_digits, behind_spaces, strtoull, same_text,
  init, print, extract,
}
use konro.Text.{Bytes, codes, is_digit, ullong_max, scan, print_ℕ}
use konro.Text.Decimal.{scan_lem, print_ℕ-head}

pub same_text_refl : (s : Bytes) → same_text s s ≡ true
same_text_refl [] = refl
same_text_refl (c ∷ s) = ground (arith, same_text_refl s)

strtoull_digit :
    (c : ℕ) (s : Bytes) (n : ℕ) (rest : Bytes)
    → is_digit c ≡ true
    → n < 2 ^ 64
    → scan (ullong_max + 1) 0 (c ∷ s) ≡ (n, rest)
    → strtoull (c ∷ s) ≡ (n, rest)
unfolding strtoull behind_spaces skip_spaces unsigned_digits
strtoull_digit c s n rest d h e = ground arith

strtoull-print_ℕ : (n : ℕ) → n < 2 ^ 64 → strtoull (print_ℕ n) ≡ (n, [])
strtoull-print_ℕ n h =
    let (c, s, p, d) = print_ℕ-head n in
    let read =
      ap (scan (ullong_max + 1) 0) (sym p ∙ sym (append-nil (print_ℕ n)))
      ∙ scan_lem (ullong_max + 1) n [] (omega arith) tt in
    ap strtoull p ∙ strtoull_digit c s n [] d h read

no_max : (n : ℕ) → same_text (print_ℕ n) (codes "max") ≡ false
no_max n = let (c, s, p, d) = print_ℕ-head n in ap (λ t. same_text t (codes "max")) p ∙ head c s d
  where
    head : (c : ℕ) (s : Bytes) → is_digit c ≡ true → same_text (c ∷ s) (codes "max") ≡ false
    head c s d = ground arith

-- The text of a value that is a number.
init_digits : (value : ℕ) → value < 2 ^ 64 → init (some (print_ℕ value, [])) ≡ value
unfolding init
init_digits value h = rw append-nil (rw (no_max value, strtoull-print_ℕ value h) refl)

pub extract_digits : (value : ℕ) → value < 2 ^ 64 → extract (some (print_ℕ value)) ≡ value
unfolding extract
extract_digits value h = rw (no_max value, strtoull-print_ℕ value h) refl

init_invalid : init (some (codes "invalid", [])) ≡ numeric_invalid
unfolding init strtoull behind_spaces skip_spaces unsigned_digits
init_invalid = refl

init_max : init (some (codes "max", [])) ≡ numeric_max
unfolding init
init_max = refl

pub extract_max : extract (some (codes "max")) ≡ numeric_max
unfolding extract
extract_max = refl

-- Every value is printed as a text that the constructor reads as the value, "max" and "invalid"
-- included.
pub init-print : (value : ℕ) → value < 2 ^ 64 → init (some (print value, [])) ≡ value
unfolding print
init-print value h = elim (Bool-cases (value == numeric_invalid)) [
  | inl e ↦ rw e (init_invalid ∙ sym ((==_iff value numeric_invalid).0 e))
  | inr e ↦ rw e (elim (Bool-cases (value == numeric_max)) [
    | inl f ↦ rw f (init_max ∙ sym ((==_iff value numeric_max).0 f))
    | inr f ↦ rw f (init_digits value h)
  ])
]

-- The stream operator reads back every value that is not invalid.
pub extract-print :
    (value : ℕ) → value < 2 ^ 64 → value ≢ numeric_invalid → extract (some (print value)) ≡ value
unfolding print
extract-print value h k = elim (Bool-cases (value == numeric_invalid)) [
  | inl e ↦ absurd (k ((==_iff value numeric_invalid).0 e))
  | inr e ↦ rw e (elim (Bool-cases (value == numeric_max)) [
    | inl f ↦ rw f (extract_max ∙ sym ((==_iff value numeric_max).0 f))
    | inr f ↦ rw f (extract_digits value h)
  ])
]
