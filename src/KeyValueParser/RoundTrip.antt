-- ===== src/KeyValueParser/RoundTrip.antt =====
-- Reading back a limit of io.max.
use konro.Base.{
  ℕ, ◌<◌, ◌^◌, ◌≡◌, ◌≢◌, ◌∙◌, refl, true, false, some, [], ◌∷◌, ◌++◌, ◌==◌, All, arith, Bool-cases,
  inl, inr,
}
use konro.Base.Int.{pos, to_int-small, eqb_ℤ_iff}
use konro.KeyValueParser.{
  IoMax, rbps, wbps, riops, wiops, key_name, io_max_text, find_token_end, device_number,
  parse_minor, after_major, parse_major_minor, is_none, parse_value, next_tag, insert_tag,
  after_tag, parse_key_value, parse_tag_line, parse_tags, parse_line, after_device,
}
use konro.NumericValue
use konro.NumericValue.{init, numeric_invalid, numeric_max}
use konro.NumericValue.RoundTrip.{init-print}
use konro.Text.{Bytes, codes, is_alnum, is_digit, print_ℕ, print_ℤ, long_max, scan}
use konro.Text.Decimal.{scan_lem, print_ℕ-head, print_ℕ-All}

-- A number of a device.
device_number-print :
    (n c : ℕ) (rest : Bytes)
    → n < 2147483648
    → is_digit c ≡ false
    → device_number (print_ℕ n ++ c ∷ rest) ≡ some (pos n, c ∷ rest)
device_number-print n c rest h k =
    let (d, s, e, i) = print_ℕ-head n in
    let read = scan_lem long_max n (c ∷ rest) (omega arith) k in
    rw e (number_lem d (s ++ c ∷ rest) n (c ∷ rest) i h (rw e at read))
  where
    number_lem :
        (d : ℕ) (s : Bytes) (n : ℕ) (rest : Bytes)
        → is_digit d ≡ true
        → n < 2147483648
        → scan long_max 0 (d ∷ s) ≡ (n, rest)
        → device_number (d ∷ s) ≡ some (pos n, rest)
    number_lem d s n rest i h e = unfold device_number in rw (i, e, to_int-small n h) refl

print-alnum : (value : ℕ) → All (λ c. is_alnum c ≡ true) (NumericValue.print value)
unfolding NumericValue.print
print-alnum value = elim (Bool-cases (value == numeric_invalid)) [
  | inl e ↦ rw e (ground arith)
  | inr e ↦ rw e (elim (Bool-cases (value == numeric_max)) [
    | inl f ↦ rw f (ground arith)
    | inr f ↦ rw f (print_ℕ-All (λ c. is_alnum c ≡ true) (λ d h. ground arith) value)
  ])
]

find_token_end-All : (s : Bytes) → All (λ c. is_alnum c ≡ true) s → find_token_end s ≡ (s, [])
unfolding find_token_end
find_token_end-All [] h = refl
find_token_end-All (c ∷ s) h = rw (h.0, find_token_end-All s h.1) refl

print-none : (value : ℕ) → is_none (NumericValue.print value) ≡ false
unfolding NumericValue.print
print-none value = elim (Bool-cases (value == numeric_invalid)) [
  | inl e ↦ rw e refl
  | inr e ↦ rw e (elim (Bool-cases (value == numeric_max)) [
    | inl f ↦ rw f refl
    | inr f ↦ rw f (let (d, s, e, i) = print_ℕ-head value in rw e refl)
  ])
]

parse_value-print :
    (tag : Bytes) (value : ℕ)
    → value < 2 ^ 64
    → value ≢ numeric_invalid
    → parse_value tag (NumericValue.print value) ≡ some ((tag, value), [])
unfolding parse_value
parse_value-print tag value l m =
    let valid : (value == numeric_invalid) ≡ false = ground (arith, m) in
    rw
      (
        find_token_end-All (NumericValue.print value) (print-alnum value),
        print-none value,
        init-print value l,
        valid,
      )
      refl

parse_key_value-print :
    (key : IoMax) (value : ℕ)
    → value < 2 ^ 64
    → value ≢ numeric_invalid
    → parse_key_value (key_name key ++ b'=' ∷ NumericValue.print value)
      ≡ some ((key_name key, value), [])
unfolding parse_key_value find_token_end after_tag key_name
parse_key_value-print rbps value l m = parse_value-print (codes "rbps") value l m
parse_key_value-print wbps value l m = parse_value-print (codes "wbps") value l m
parse_key_value-print riops value l m = parse_value-print (codes "riops") value l m
parse_key_value-print wiops value l m = parse_value-print (codes "wiops") value l m

one_tag :
    (c : ℕ) (s tag : Bytes) (value : ℕ)
    → parse_key_value (c ∷ s) ≡ some ((tag, value), [])
    → parse_tag_line (c ∷ s) ≡ some ((tag, value) ∷ [])
unfolding parse_tag_line next_tag insert_tag
one_tag c s tag value h = rw (parse_tags, h) refl

tag_lem :
    (key : IoMax) (text : Bytes) (value : ℕ)
    → parse_key_value (key_name key ++ b'=' ∷ text) ≡ some ((key_name key, value), [])
    → parse_tag_line (key_name key ++ b'=' ∷ text) ≡ some ((key_name key, value) ∷ [])
unfolding key_name
tag_lem rbps text value h = one_tag _ _ (codes "rbps") value h
tag_lem wbps text value h = one_tag _ _ (codes "wbps") value h
tag_lem riops text value h = one_tag _ _ (codes "riops") value h
tag_lem wiops text value h = one_tag _ _ (codes "wiops") value h

line_lem :
    (major minor : ℕ) (rest : Bytes)
    → major < 2147483648
    → minor < 2147483648
    → parse_line (pos major) (pos minor) (print_ℕ major ++ b':' ∷ (print_ℕ minor ++ b' ' ∷ rest))
      ≡ parse_tag_line rest
unfolding parse_line parse_major_minor after_major parse_minor after_device
line_lem major minor rest h k =
    rw
      (
        parse_line,
        parse_major_minor,
        device_number-print major b':' (print_ℕ minor ++ b' ' ∷ rest) h refl,
        (eqb_ℤ_iff (pos major) (pos major)).1 refl,
        device_number-print minor b' ' rest k refl,
        (eqb_ℤ_iff (pos minor) (pos minor)).1 refl,
      )
      refl

-- What `setMax` writes for a device is read back as the one tag with its value, "max" included, for
-- any value that is not invalid.
pub parse_line-io_max_text :
    (major minor : ℕ) (key : IoMax) (value : ℕ)
    → major < 2147483648
    → minor < 2147483648
    → value < 2 ^ 64
    → value ≢ numeric_invalid
    → parse_line (pos major) (pos minor) (io_max_text (pos major) (pos minor) key value)
      ≡ some ((key_name key, value) ∷ [])
unfolding io_max_text print_ℤ
parse_line-io_max_text major minor key value h k l m =
    line_lem major minor (key_name key ++ b'=' ∷ NumericValue.print value) h k
    ∙ tag_lem key (NumericValue.print value) value (parse_key_value-print key value l m)
