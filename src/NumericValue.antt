-- ===== src/NumericValue.antt =====
-- rm/librmcommon/numericvalue.h and numericvalue.cpp: a number of 64 bits that can be "max" or
-- invalid. The value of the class is its field.
pub mod RoundTrip
use konro.Base.{
  ℕ, ◌+◌, ◌-◌, ◌*◌, ◌%◌, ◌^◌, Bool, true, false, ◌||◌, ◌&&◌, Option, none, some, List, [], ◌∷◌,
  ◌++◌, length, ltb, leb, ◌==◌, if◌then◌else◌,
}
use konro.Text.{Bytes, codes, is_digit, ullong_max, scan, print_ℕ}

abbrev pub numeric_max : ℕ
numeric_max = 2 ^ 64 - 1

abbrev pub numeric_invalid : ℕ
numeric_invalid = numeric_max - 1

abbrev pub is_space : ℕ → Bool
is_space c = c == b' ' || leb 9 c && leb c 13

-- Behind the white space.
unfoldable pub skip_spaces : Bytes → Bytes
skip_spaces [] = []
skip_spaces (c ∷ s) = if is_space c then skip_spaces s else c ∷ s

-- The value of the digits, negated behind a minus sign; ULLONG_MAX if it is out of range.
abbrev pub signed_value : Bool → ℕ → ℕ
signed_value minus n =
    if ltb ullong_max n then ullong_max else if minus then (2 ^ 64 - n) % 2 ^ 64 else n

-- strtoull in base 10 behind white space and sign, where `text` is the whole text: the value and the
-- end of what was read, the text itself if there is no digit.
unfoldable pub unsigned_digits : Bool → Bytes → Bytes → ℕ × Bytes
unsigned_digits minus text [] = (0, text)
unsigned_digits minus text (c ∷ s) =
    let r = scan (ullong_max + 1) 0 (c ∷ s) in
    if is_digit c then (signed_value minus r.0, r.1) else (0, text)

unfoldable pub behind_spaces : Bytes → Bytes → ℕ × Bytes
unfolding unsigned_digits
behind_spaces text [] = (0, text)
behind_spaces text (c ∷ s) =
    if c == b'-'
    then unsigned_digits true text s
    else if c == b'+'
    then unsigned_digits false text s
    else unsigned_digits false text (c ∷ s)

unfoldable pub strtoull : Bytes → ℕ × Bytes
unfolding behind_spaces skip_spaces
strtoull text = behind_spaces text (skip_spaces text)

-- strncmp on texts of the same length
abbrev pub same_text : Bytes → Bytes → Bool
same_text [] [] = true
same_text [] (d ∷ t) = false
same_text (c ∷ s) [] = false
same_text (c ∷ s) (d ∷ t) = c == d && same_text s t

-- `init` for a null pointer, or for the text from `pStart` to `pEnd` and what follows it up to the
-- terminating zero.
unfoldable pub init : Option (Bytes × Bytes) → ℕ
unfolding strtoull
init none = numeric_invalid
init (some (text, rest)) =
    let r = strtoull (text ++ rest) in
    if same_text text (codes "max")
    then numeric_max
    else if length r.1 == length rest
    then r.0
    else numeric_invalid

-- operator<<
unfoldable pub print : ℕ → Bytes
unfolding print_ℕ
print value =
    if value == numeric_invalid
    then codes "invalid"
    else if value == numeric_max
    then codes "max"
    else print_ℕ value

-- operator>>, on the word that is read, if there is one.
unfoldable pub extract : Option Bytes → ℕ
unfolding strtoull
extract none = numeric_invalid
extract (some s) = if same_text s (codes "max") then numeric_max else (strtoull s).0
