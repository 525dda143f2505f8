-- ===== src/Cgroup/Paths.antt =====
-- What a path built for an app tells of it, what splitting a text undoes, and the limit of cpu.max.
use konro.Base.{
  ℕ, ◌*◌, ◌/◌, ◌%◌, ◌^◌, ◌<◌, ◌≡◌, ◌∙◌, refl, ap, false, some, List, [], ◌∷◌, ◌++◌, ◌==◌, All, ◌⊎◌,
  append_assoc, arith, inl, inr,
}
use konro.Base.Int.{to_uint64}
use konro.Cgroup.{tsplit}
use konro.Cgroup.Controllers.{cpu_max_text, cpu_max_of, max_of_words}
use konro.NumericValue
use konro.NumericValue.{numeric_max, numeric_invalid, is_space, extract}
use konro.NumericValue.RoundTrip.{extract_digits}
use konro.Streams.{split_words, words, push_word, read_int, int_digits}
use konro.Text.{Bytes, codes, digits, print_ℕ, scan}
use konro.Text.Decimal.{print_ℕ-head, print_ℕ-All}

-- No character of the field is the separator.
abbrev pub IsField : ℕ → Bytes → Type 0
IsField sep w = All (λ c. (c == sep) ≡ false) w

-- The fields, each with the separator behind it.
abbrev pub terminated : ℕ → List Bytes → Bytes
terminated sep [] = []
terminated sep (w ∷ ws) = w ++ sep ∷ terminated sep ws

tsplit-field :
    (sep : ℕ) (w rest : Bytes) → IsField sep w → tsplit sep (w ++ sep ∷ rest) ≡ w ∷ tsplit sep rest
unfolding tsplit
tsplit-field sep [] rest h = ground arith
tsplit-field sep (c ∷ w) rest h = rw (h.0, tsplit-field sep w rest h.1) refl

-- Splitting a text in which every field is followed by the separator gives the fields, empty ones
-- included, when no field holds the separator.
pub tsplit-terminated :
    (sep : ℕ) (ws : List Bytes) → All (IsField sep) ws → tsplit sep (terminated sep ws) ≡ ws
tsplit-terminated sep [] h = unfold tsplit in refl
tsplit-terminated sep (w ∷ ws) h =
    tsplit-field sep w (terminated sep ws) h.0 ∙ ap (λ r. w ∷ r) (tsplit-terminated sep ws h.1)

tsplit_last : (sep c : ℕ) (w : Bytes) → IsField sep (c ∷ w) → tsplit sep (c ∷ w) ≡ (c ∷ w) ∷ []
unfolding tsplit
tsplit_last sep c [] h = rw h.0 refl
tsplit_last sep c (d ∷ w) h = rw (h.0, tsplit_last sep d w h.1) refl

-- Splitting a text in which fields are divided by the separator gives the fields, when no field holds
-- the separator and the last one is not empty.
pub tsplit-open :
    (sep : ℕ) (ws : List Bytes) (c : ℕ) (w : Bytes)
    → All (IsField sep) ws
    → IsField sep (c ∷ w)
    → tsplit sep (terminated sep ws ++ c ∷ w) ≡ ws ++ (c ∷ w) ∷ []
tsplit-open sep [] c w h k = tsplit_last sep c w k
tsplit-open sep (v ∷ ws) c w h k = rw (append_assoc v (sep ∷ terminated sep ws) (c ∷ w)) (
    tsplit-field sep v (terminated sep ws ++ c ∷ w) h.0
    ∙ ap (λ r. v ∷ r) (tsplit-open sep ws c w h.1 k))

-- The two words of a text that a space divides.
split_words-word :
    (w rest : Bytes)
    → All (λ c. is_space c ≡ false) w
    → split_words (w ++ b' ' ∷ rest) ≡ (w, words rest)
unfolding split_words words
split_words-word [] rest h = refl
split_words-word (c ∷ w) rest h = rw (h.0, split_words-word w rest h.1) refl

push_word-print_ℕ : (n : ℕ) (ws : List Bytes) → push_word (print_ℕ n) ws ≡ print_ℕ n ∷ ws
push_word-print_ℕ n ws = let (c, s, e, d) = print_ℕ-head n in rw e refl

words-print_ℕ : (n : ℕ) (rest : Bytes) → words (print_ℕ n ++ b' ' ∷ rest) ≡ print_ℕ n ∷ words rest
unfolding words
words-print_ℕ n rest =
    rw
      (split_words-word (print_ℕ n) rest
        (print_ℕ-All (λ c. is_space c ≡ false) (λ d h. ground arith) n))
      (push_word-print_ℕ n (words rest))

period_words : words (print_ℕ 100000) ≡ codes "100000" ∷ []
unfolding words split_words print_ℕ digits
period_words = refl

max_of_words_lem :
    (w : Bytes) (p : ℕ)
    → p * 100000 < 2 ^ 64
    → extract (some w) ≡ p * 1000
    → max_of_words (w ∷ codes "100000" ∷ []) ≡ some p
unfolding max_of_words to_uint64 scan
max_of_words_lem w p h k = rw (max_of_words, k) (ground arith)

percentage_lem : (p : ℕ) → p * 100000 < 2 ^ 64 → cpu_max_of (cpu_max_text p) ≡ some p
unfolding cpu_max_text cpu_max_of
percentage_lem p h =
    let no_max : (p == numeric_max) ≡ false = ground arith in
    let value : p * 100000 % 2 ^ 64 / 100 ≡ p * 1000 = ground arith in
    rw (no_max, value, words-print_ℕ (p * 1000) (print_ℕ 100000), period_words)
      (max_of_words_lem (print_ℕ (p * 1000)) p h (extract_digits (p * 1000) (omega arith)))

max_text : cpu_max_text numeric_max ≡ codes "max 100000"
unfolding cpu_max_text NumericValue.print print_ℕ digits
max_text = refl

read_max : cpu_max_of (codes "max 100000") ≡ some numeric_max
unfolding cpu_max_of words split_words max_of_words read_int int_digits scan
read_max = refl

-- A percentage that is written to cpu.max is read back as it was, "max" included, unless its
-- product with the period does not fit 64 bits.
pub cpu_max_of-cpu_max_text :
    (p : ℕ) → (p * 100000 < 2 ^ 64) ⊎ (p ≡ numeric_max) → cpu_max_of (cpu_max_text p) ≡ some p
cpu_max_of-cpu_max_text p (inl h) = percentage_lem p h
cpu_max_of-cpu_max_text p (inr e) = rw (e, max_text) read_max
