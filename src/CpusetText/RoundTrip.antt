-- ===== src/CpusetText/RoundTrip.antt =====
-- What setCpus writes, parseCpuSet reads back.
use konro.Base.{
  ℕ, zero, suc, ◌+◌, ◌<◌, ◌≡◌, ◌∙◌, lt→ltb, refl, inl, inr, ap, true, false, some, [], ◌∷◌, ◌++◌,
  append_assoc, append-nil, arith, Bool-cases, length, All,
}
use konro.Base.Int.{ℤ, pos, negsuc, eqb_ℤ, eqb_ℤ_iff, to_short-small, to_int-small}
use konro.Cpuset.{CpusetVector}
use konro.Text.{Bytes, is_digit, long_max, print_ℤ, print_ℕ}
use konro.Text.Decimal.{scan_lem, print_ℕ-head, NoDigit}
use konro.CpusetText.Total.{parse_item_shorter}
use konro.CpusetText.{
  item, items_from, cpus_text, string_items, to_string, parsed, cpu_number, range_end,
  second_number, after_number, parse_item, parse_loop, parse_cpu_set,
}

-- A PU number is not negative and fits a short.
abbrev pub IsPu : ℤ → Type 0
IsPu (pos n) = n < 32768
IsPu (negsuc n) = ⊥

abbrev pub IsPuRange : ℤ × ℤ → Type 0
IsPuRange (first, second) = IsPu first × IsPu second

cpu_number-print :
    (n : ℕ) (rest : Bytes)
    → n < 32768
    → NoDigit rest
    → cpu_number (print_ℕ n ++ rest) ≡ (pos n, rest)
unfolding cpu_number
cpu_number-print n rest h k =
    rw (scan_lem long_max n rest (omega arith) k, to_int-small n (omega arith), to_short-small n h)

-- The text behind an item: the end, or a comma and more.
data Behind : Bytes → Bytes → Type 0 where
  ending : Behind [] []
  comma : (rest : Bytes) → Behind (b',' ∷ rest) rest

parse_item_digit :
    (p : Bytes) (c : ℕ) (t : Bytes)
    → p ≡ c ∷ t
    → is_digit c ≡ true
    → parse_item p ≡ after_number (cpu_number p).0 (cpu_number p).1
unfolding parse_item
parse_item_digit p c t e d = rw (e, d) refl

second_number_digit :
    (a : ℤ) (p : Bytes) (c : ℕ) (t : Bytes)
    → p ≡ c ∷ t
    → is_digit c ≡ true
    → second_number a p ≡ range_end (a, (cpu_number p).0) (cpu_number p).1
unfolding second_number
second_number_digit a p c t e d = rw (e, d) refl

parse_item-print :
    (n : ℕ) (s : Bytes)
    → n < 32768
    → NoDigit s
    → parse_item (print_ℕ n ++ s) ≡ after_number (pos n) s
parse_item-print n s h k =
    let (c, t, p, d) = print_ℕ-head n in
    parse_item_digit (print_ℕ n ++ s) c (t ++ s) (ap (λ x. x ++ s) p) d
    ∙ rw (cpu_number-print n s h k) refl

second_number-print :
    (a : ℤ) (n : ℕ) (s : Bytes)
    → n < 32768
    → NoDigit s
    → second_number a (print_ℕ n ++ s) ≡ range_end (a, pos n) s
second_number-print a n s h k =
    let (c, t, p, d) = print_ℕ-head n in
    second_number_digit a (print_ℕ n ++ s) c (t ++ s) (ap (λ x. x ++ s) p) d
    ∙ rw (cpu_number-print n s h k) refl

Behind-NoDigit : {tail rest : Bytes} → Behind tail rest → NoDigit tail
Behind-NoDigit ending = tt
Behind-NoDigit (comma rest) = refl

range_end-Behind :
    (r : ℤ × ℤ) {tail rest : Bytes} → Behind tail rest → range_end r tail ≡ some (r, rest)
unfolding range_end
range_end-Behind r ending = refl
range_end-Behind r (comma rest) = refl

after_number-Behind :
    (a : ℤ) {tail rest : Bytes} → Behind tail rest → after_number a tail ≡ some ((a, a), rest)
unfolding after_number
after_number-Behind a ending = refl
after_number-Behind a (comma rest) = refl

after_number-dash : (a : ℤ) (s : Bytes) → after_number a (b'-' ∷ s) ≡ second_number a s
unfolding after_number
after_number-dash a s = refl

parse_item-pos :
    (a b : ℕ) {tail rest : Bytes}
    → a < 32768
    → b < 32768
    → Behind tail rest
    → parse_item (item (pos a, pos b) ++ tail) ≡ some ((pos a, pos b), rest)
unfolding item
parse_item-pos a b {tail} h k t = elim (Bool-cases (eqb_ℤ (pos b) (pos a))) [
  | inl e ↦
      rw (e, append-nil)
        (parse_item-print a tail h (Behind-NoDigit t)
          ∙ after_number-Behind (pos a) t
          ∙ rw ((eqb_ℤ_iff (pos b) (pos a)).0 e) refl)
  | inr e ↦
      rw (e, append_assoc)
        (parse_item-print a (b'-' ∷ (print_ℕ b ++ tail)) h refl
          ∙ after_number-dash (pos a) (print_ℕ b ++ tail)
          ∙ second_number-print (pos a) b tail k (Behind-NoDigit t)
          ∙ range_end-Behind (pos a, pos b) t)
]

parse_item-item :
    (r : ℤ × ℤ) {tail rest : Bytes}
    → IsPuRange r
    → Behind tail rest
    → parse_item (item r ++ tail) ≡ some (r, rest)
parse_item-item (pos a, pos b) h t = parse_item-pos a b h.0 h.1 t
parse_item-item (pos a, negsuc b) h t = absurd h.1
parse_item-item (negsuc a, b) h t = absurd h.0

parse_loop_step :
    (f : ℕ) (vec : CpusetVector) (p : Bytes) (r : ℤ × ℤ) (rest : Bytes)
    → parse_item p ≡ some (r, rest)
    → parse_loop (suc f) vec p ≡ parse_loop f (vec ++ r ∷ []) rest
unfolding parse_loop
parse_loop_step f vec [] r rest e = unfold parse_item in absurd (cc)
parse_loop_step f vec (c ∷ s) r rest e = rw (e, parse_loop) refl

items_from_comma :
    (i : ℕ) (r : ℤ × ℤ) (vec : CpusetVector)
    → 0 < i
    → items_from i (r ∷ vec) ≡ b',' ∷ (item r ++ items_from (i + 1) vec)
unfolding items_from
items_from_comma i r vec h = rw (lt→ltb 0 i h) refl

parse_loop-items :
    (f i : ℕ) (acc : CpusetVector) (r : ℤ × ℤ) (vec : CpusetVector)
    → 0 < i
    → All IsPuRange (r ∷ vec)
    → length (item r ++ items_from i vec) < f
    → parse_loop f acc (item r ++ items_from i vec) ≡ parsed (acc ++ r ∷ vec)
parse_loop-items zero i acc r vec l h k = absurd (omega arith)
parse_loop-items (suc f) i acc r [] l h k =
    parse_loop_step f acc (item r ++ items_from i []) r [] e ∙ last f (omega (arith, shorter))
  where
    e : parse_item (item r ++ items_from i []) ≡ some (r, [])
    e = unfold items_from in parse_item-item r h.0 ending

    shorter : 0 < length (item r ++ items_from i [])
    shorter = parse_item_shorter (item r ++ items_from i []) r [] e

    last : (g : ℕ) → 0 < g → parse_loop g (acc ++ r ∷ []) [] ≡ parsed (acc ++ r ∷ [])
    last zero p = absurd (omega arith)
    last (suc g) p = unfold parse_loop in refl
parse_loop-items (suc f) i acc r (x ∷ vec) l h k =
    parse_loop_step f acc (item r ++ items_from i (x ∷ vec)) r (item x ++ items_from (i + 1) vec) e
    ∙ parse_loop-items f (i + 1) (acc ++ r ∷ []) x vec (omega arith) h.1
        (omega (arith, parse_item_shorter _ r _ e))
    ∙ ap parsed (append_assoc acc (r ∷ []) (x ∷ vec))
  where
    e : parse_item (item r ++ items_from i (x ∷ vec)) ≡ some (r, item x ++ items_from (i + 1) vec)
    e = rw (items_from_comma i x vec l) (parse_item-item r h.0 (comma _))

-- The text that is written for ranges of PUs from 0 to 32767 is read back as the ranges.
pub parse_cpu_set-cpus_text :
    (cpus : CpusetVector) → All IsPuRange cpus → parse_cpu_set (cpus_text cpus) ≡ parsed cpus
unfolding parse_cpu_set cpus_text
parse_cpu_set-cpus_text [] h = unfold parse_loop in refl
parse_cpu_set-cpus_text (r ∷ vec) h =
    parse_loop-items (suc (length (item r ++ items_from 1 vec))) 1 [] r vec (omega arith) h
      (omega arith)

string_items-items_from :
    (i : ℕ) (vec : CpusetVector) → 0 < i → string_items false vec ≡ items_from i vec
unfolding string_items item items_from
string_items-items_from i [] h = refl
string_items-items_from i ((a, b) ∷ vec) h = ground (
  arith,
  string_items-items_from (i + 1) vec,
  eqb_ℤ_iff a b,
  eqb_ℤ_iff b a,
  append-nil (print_ℤ a),
)

-- `toString`, which logs the ranges, writes the text that the kernel is given.
to_string-cpus_text : (vec : CpusetVector) → to_string vec ≡ cpus_text vec
unfolding to_string cpus_text string_items items_from item
to_string-cpus_text [] = refl
to_string-cpus_text ((a, b) ∷ vec) =
    ground
      (arith, string_items-items_from 1 vec, eqb_ℤ_iff a b, eqb_ℤ_iff b a, append-nil (print_ℤ a))
