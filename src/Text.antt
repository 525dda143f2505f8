-- ===== src/Text.antt =====
-- The C and C++ library functions on characters and decimal numbers that the parsers and printers
-- call. A C string is the list of its bytes, without the terminating zero.
pub mod Decimal
use Prim.Native.Char.{code}
use Prim.Native.String.{String}
use konro.Base.{
  ℕ, zero, suc, ◌+◌, ◌-◌, ◌*◌, ◌/◌, ◌%◌, ◌^◌, ◌≡◌, refl, Bool, ◌||◌, ◌&&◌, List, [], ◌∷◌, ◌++◌, ltb,
  leb, ◌==◌, if◌then◌else◌,
}
use konro.Base.Int.{ℤ, pos, negsuc}

abbrev pub Bytes : Type 0
Bytes = List ℕ

-- The code points of a literal, which are its bytes when the text is ASCII.
abbrev pub codes : String → Bytes
codes String.[] = []
codes (String.◌∷◌ c s) = code c ∷ codes s

abbrev pub is_digit : ℕ → Bool
is_digit c = leb b'0' c && leb c b'9'

abbrev pub is_alnum : ℕ → Bool
is_alnum c = is_digit c || leb b'A' c && leb c b'Z' || leb b'a' c && leb c b'z'

-- LONG_MAX and ULLONG_MAX
abbrev pub long_max : ℕ
long_max = 2 ^ 63 - 1

abbrev pub ullong_max : ℕ
ullong_max = 2 ^ 64 - 1

-- The number after one more digit, held at the limit.
abbrev pub accumulate : ℕ → ℕ → ℕ → ℕ
accumulate lim n c = let m = n * 10 + (c - b'0') in if ltb lim m then lim else m

-- The digits of strtol and strtoull in base 10, from a number already read: the value, held at the
-- limit, and the rest of the text.
unfoldable pub scan : ℕ → ℕ → Bytes → ℕ × Bytes
scan lim n [] = (n, [])
scan lim n (c ∷ s) = if is_digit c then scan lim (accumulate lim n c) s else (n, c ∷ s)

-- The decimal digits of n, which take at most n + 1 rounds.
unfoldable pub digits : ℕ → ℕ → Bytes
digits zero n = []
digits (suc f) n =
    let front = digits f (n / 10) in
    if ltb n 10 then (b'0' + n) ∷ [] else front ++ (b'0' + n % 10) ∷ []

-- os << n
unfoldable pub print_ℕ : ℕ → Bytes
unfolding digits
print_ℕ n = digits (suc n) n

unfoldable pub print_ℤ : ℤ → Bytes
unfolding print_ℕ
print_ℤ (pos n) = print_ℕ n
print_ℤ (negsuc n) = b'-' ∷ print_ℕ (suc n)

prints_ten : print_ℤ (negsuc 9) ≡ codes "-10"
unfolding print_ℤ
prints_ten = refl
