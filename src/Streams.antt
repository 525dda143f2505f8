-- ===== src/Streams.antt =====
-- What the parsers of kernel files take from the C++ and C libraries: words and numbers of an input
-- stream, strtol and strtoul, the lines and fields of a text.
use konro.Base.{
  ℕ, zero, suc, ◌+◌, Bool, true, false, Option, none, some, List, [], ◌∷◌, ltb, leb, ◌==◌,
  if◌then◌else◌,
}
use konro.Base.Int.{ℤ, pos, negsuc}
use konro.NumericValue.{is_space, skip_spaces, signed_value, strtoull}
use konro.Text.{Bytes, is_digit, long_max, ullong_max, scan}

abbrev pub is_empty : {A : Type 0} → List A → Bool
is_empty [] = true
is_empty (x ∷ xs) = false

-- xs[n], if there is one
abbrev pub nth : {A : Type 0} → ℕ → List A → Option A
nth n [] = none
nth zero (x ∷ xs) = some x
nth (suc n) (x ∷ xs) = nth n xs

-- Adds a word, unless it is empty.
abbrev pub push_word : Bytes → List Bytes → List Bytes
push_word [] ws = ws
push_word (c ∷ w) ws = (c ∷ w) ∷ ws

-- The word that the text begins with, empty before white space, and the words behind it.
unfoldable pub split_words : Bytes → Bytes × List Bytes
split_words [] = ([], [])
split_words (c ∷ s) =
    let r = split_words s in if is_space c then ([], push_word r.0 r.1) else (c ∷ r.0, r.1)

-- The strings that `is >> s` reads one after the other.
unfoldable pub words : Bytes → List Bytes
unfolding split_words
words s = let r = split_words s in push_word r.0 r.1

-- The digits of an unsigned number; out of range, the read fails.
abbrev pub in_range : Bool → ℕ × Bytes → Option (ℕ × Bytes)
in_range minus r = if ltb ullong_max r.0 then none else some (signed_value minus r.0, r.1)

unfoldable pub read_digits : Bool → Bytes → Option (ℕ × Bytes)
read_digits minus [] = none
read_digits minus (c ∷ s) =
    if is_digit c then in_range minus (scan (ullong_max + 1) 0 (c ∷ s)) else none

unfoldable pub read_signed : Bytes → Option (ℕ × Bytes)
unfolding read_digits
read_signed [] = none
read_signed (c ∷ s) =
    if c == b'-'
    then read_digits true s
    else if c == b'+'
    then read_digits false s
    else read_digits false (c ∷ s)

-- `is >> n` for a uint64_t: the number and the rest; `none` where the stream fails.
unfoldable pub read_number : Bytes → Option (ℕ × Bytes)
unfolding read_signed skip_spaces
read_number s = read_signed (skip_spaces s)

-- The text behind the first word.
unfoldable pub drop_word : Bytes → Bytes
drop_word [] = []
drop_word (c ∷ s) = if is_space c then c ∷ s else drop_word s

unfoldable pub behind_word : Bytes → Bytes
unfolding drop_word skip_spaces
behind_word s = drop_word (skip_spaces s)

-- strtoul(s, nullptr, 10)
unfoldable pub strtoul : Bytes → ℕ
unfolding strtoull
strtoul s = (strtoull s).0

-- -n, at least LONG_MIN
abbrev pub negated : ℕ → ℤ
negated zero = pos 0
negated (suc n) = negsuc n

unfoldable pub long_digits : Bool → Bytes → ℤ
long_digits minus [] = pos 0
long_digits minus (c ∷ s) =
    if is_digit c
    then (if minus
        then negated (scan (long_max + 1) 0 (c ∷ s)).0
        else pos (scan long_max 0 (c ∷ s)).0)
    else pos 0

unfoldable pub long_signed : Bytes → ℤ
unfolding long_digits
long_signed [] = pos 0
long_signed (c ∷ s) =
    if c == b'-'
    then long_digits true s
    else if c == b'+'
    then long_digits false s
    else long_digits false (c ∷ s)

-- strtol(s, nullptr, 10), and atoi before its conversion
unfoldable pub strtol : Bytes → ℤ
unfolding long_signed skip_spaces
strtol s = long_signed (skip_spaces s)

-- The text behind the last c.
unfoldable pub after_last : ℕ → Bytes → Option Bytes
after_last c [] = none
after_last c (x ∷ s) =
    let found = after_last c s in
    let here : Option Bytes = if x == c then some s else none in
    elim found [ none ↦ here | some t ↦ some t ]

-- The text before the first c, and the text behind it if there is a c.
unfoldable pub cut_at : ℕ → Bytes → Bytes × Option Bytes
cut_at c [] = ([], none)
cut_at c (x ∷ s) = let r = cut_at c s in if x == c then ([], some s) else (x ∷ r.0, r.1)

-- The rest behind a prefix.
unfoldable pub strip_prefix : Bytes → Bytes → Option Bytes
strip_prefix [] s = some s
strip_prefix (c ∷ p) [] = none
strip_prefix (c ∷ p) (x ∷ s) = let rest = strip_prefix p s in if c == x then rest else none

-- `is >> n` for an int, from a word on; `none` where the stream fails.
abbrev pub int_in_range : Bool → ℕ → Option ℤ
int_in_range true n = if leb n 2147483648 then some (negated n) else none
int_in_range false n = if ltb n 2147483648 then some (pos n) else none

unfoldable pub int_digits : Bool → Bytes → Option ℤ
int_digits minus [] = none
int_digits minus (c ∷ s) =
    if is_digit c then int_in_range minus (scan (ullong_max + 1) 0 (c ∷ s)).0 else none

unfoldable pub read_int : Bytes → Option ℤ
unfolding int_digits
read_int [] = none
read_int (c ∷ s) =
    if c == b'-'
    then int_digits true s
    else if c == b'+'
    then int_digits false s
    else int_digits false (c ∷ s)
