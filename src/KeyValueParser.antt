-- ===== src/KeyValueParser.antt =====
-- rm/platformcontrol/utilities/keyvalueparser.cpp: lines of io.max and io.stat, like
-- "8:0 rbps=100 wbps=max", and the text that IOControl::setMax writes. The pointers into the line are
-- the texts behind them; a runtime_error is `none`.
pub mod RoundTrip
use konro.Base.{
  ℕ, zero, suc, Bool, true, false, not, ◌&&◌, ◌||◌, Option, none, some, List, [], ◌∷◌, ◌++◌, ◌==◌,
  length, if◌then◌else◌,
}
use konro.Base.Int.{ℤ, pos, eqb_ℤ, to_int}
use konro.App.{App}
use konro.Cgroup.{CgroupConfig, get_content, set_value}
use konro.Effect.{M, Exit, ok, exception, undefined, continue, ◌>>=◌, ◌>>◌, pure}
use konro.NumericValue
use konro.NumericValue.{numeric_invalid, init, same_text}
use konro.Os.{Os}
use konro.Text.{Bytes, codes, is_digit, is_alnum, long_max, scan, print_ℤ}

-- The token up to `findTokenEnd`, and what is behind it.
unfoldable pub find_token_end : Bytes → Bytes × Bytes
find_token_end [] = ([], [])
find_token_end (c ∷ s) =
    let r = find_token_end s in if is_alnum c then (c ∷ r.0, r.1) else ([], c ∷ s)

-- A number at the pointer: its value as an int, and `endptr_`.
unfoldable pub device_number : Bytes → Option (ℤ × Bytes)
device_number [] = none
device_number (c ∷ s) =
    let r = scan long_max 0 (c ∷ s) in if is_digit c then some (to_int (pos r.0), r.1) else none

-- Behind the colon: the minor number, compared.
unfoldable pub parse_minor : ℤ → Bytes → Option (Bool × Bytes)
unfolding device_number
parse_minor minor s = elim (device_number s) [
  | none ↦ none
  | some (n, rest) ↦ some (eqb_ℤ n minor, rest)
]

-- Whether the line is of the device, and `endptr_`.
unfoldable pub after_major : ℤ → ℤ → ℤ → Bytes → Option (Bool × Bytes)
unfolding parse_minor
after_major major minor n [] = none
after_major major minor n (c ∷ s) =
    if c == b':' then (if eqb_ℤ n major then parse_minor minor s else some (false, c ∷ s)) else none

unfoldable pub parse_major_minor : ℤ → ℤ → Bytes → Option (Bool × Bytes)
unfolding device_number after_major
parse_major_minor major minor line = elim (device_number line) [
  | none ↦ none
  | some (n, rest) ↦ after_major major minor n rest
]

abbrev pub is_none : Bytes → Bool
is_none [] = true
is_none (c ∷ s) = false

-- The value behind the tag, which may not be invalid, and `endptr_`.
unfoldable pub parse_value : Bytes → Bytes → Option ((Bytes × ℕ) × Bytes)
unfolding find_token_end init
parse_value tag s =
    let t = find_token_end s in
    let val = init (some t) in
    if is_none t.0 then none else if val == numeric_invalid then none else some ((tag, val), t.1)

unfoldable pub after_tag : Bytes → Bytes → Option ((Bytes × ℕ) × Bytes)
unfolding parse_value
after_tag tag [] = none
after_tag tag (c ∷ s) = if c == b'=' || c == b':' then parse_value tag s else none

unfoldable pub parse_key_value : Bytes → Option ((Bytes × ℕ) × Bytes)
unfolding find_token_end after_tag
parse_key_value s = let t = find_token_end s in if is_none t.0 then none else after_tag t.0 t.1

-- Behind a value: the next tag, if there is one; `none` is an exception.
unfoldable pub next_tag : Bytes → Option Bytes
next_tag [] = some []
next_tag (c ∷ []) = none
next_tag (c ∷ d ∷ s) = if c == b' ' then some (d ∷ s) else none

-- std::map::insert: an earlier value of the tag stays.
unfoldable pub insert_tag : Bytes × ℕ → List (Bytes × ℕ) → List (Bytes × ℕ)
insert_tag (tag, value) [] = (tag, value) ∷ []
insert_tag (tag, value) ((t, v) ∷ tags) =
    if same_text t tag then (t, v) ∷ tags else (t, v) ∷ insert_tag (tag, value) tags

-- The loop over the tags. Each round reads at least two characters, so that as many rounds as there
-- are characters are enough; `none` also stands for a loop that ran out of them.
unfoldable pub parse_tags : ℕ → Bytes → List (Bytes × ℕ) → Option (List (Bytes × ℕ))
unfolding parse_key_value next_tag insert_tag
parse_tags f [] tags = some tags
parse_tags zero (c ∷ s) tags = none
parse_tags (suc f) (c ∷ s) tags = elim (parse_key_value (c ∷ s)) [
  | none ↦ none
  | some (kv, rest) ↦ elim (next_tag rest) [
    | none ↦ none
    | some more ↦ parse_tags f more (insert_tag kv tags)
  ]
]

unfoldable pub parse_tag_line : Bytes → Option (List (Bytes × ℕ))
unfolding parse_tags
parse_tag_line line = parse_tags (length line) line []

-- The tags behind the device's numbers.
unfoldable pub after_device : Bool × Bytes → Option (List (Bytes × ℕ))
unfolding parse_tag_line
after_device (false, rest) = some []
after_device (true, []) = some []
after_device (true, c ∷ s) = if c == b' ' then parse_tag_line s else none

-- `parseLineNv` for a device.
unfoldable pub parse_line : ℤ → ℤ → Bytes → Option (List (Bytes × ℕ))
unfolding parse_major_minor after_device
parse_line major minor line = elim (parse_major_minor major minor line) [
  | none ↦ none
  | some r ↦ after_device r
]

-- rm/platformcontrol/cgroup/controllers/iocontrol.cpp
pub data IoMax : Type 0 where
  rbps wbps riops wiops : IoMax

unfoldable pub key_name : IoMax → Bytes
key_name rbps = codes "rbps"
key_name wbps = codes "wbps"
key_name riops = codes "riops"
key_name wiops = codes "wiops"

-- The text that `setMax` writes to io.max.
unfoldable pub io_max_text : ℤ → ℤ → IoMax → ℕ → Bytes
unfolding key_name print_ℤ NumericValue.print
io_max_text major minor key value =
    print_ℤ major
    ++ b':' ∷ (print_ℤ minor ++ b' ' ∷ (key_name key ++ b'=' ∷ NumericValue.print value))

-- The loop of `getIOHelper`: the first line that has tags for the device.
unfoldable pub first_tags : ℤ → ℤ → List Bytes → List (Bytes × ℕ) → Option (List (Bytes × ℕ))
unfolding parse_line
first_tags major minor [] tags = some tags
first_tags major minor (line ∷ lines) tags = elim (parse_line major minor line) [
  | none ↦ none
  | some [] ↦ first_tags major minor lines []
  | some (t ∷ ts) ↦ some (t ∷ ts)
]

abbrev pub or_throw : {W A : Type 0} → Option A → M W A
or_throw none w = (exception, w)
or_throw (some a) w = (ok a, w)

module _ (os : Os) (config : CgroupConfig) where
  unfoldable pub get_io_helper : Bytes → ℤ → ℤ → App → M os.World (List (Bytes × ℕ))
  unfolding first_tags get_content
  get_io_helper file major minor app = do
    lines ← get_content os config (codes "io") file app
    or_throw (first_tags major minor lines [])

  unfoldable pub io_set_max : ℤ → ℤ → IoMax → ℕ → App → M os.World (Unit {0})
  unfolding set_value io_max_text
  io_set_max major minor key value app =
      set_value os config (codes "io") (codes "io.max") (io_max_text major minor key value) app

  unfoldable pub io_get_stat : ℤ → ℤ → App → M os.World (List (Bytes × ℕ))
  unfolding get_io_helper
  io_get_stat major minor app = get_io_helper (codes "io.stat") major minor app

  unfoldable pub io_get_max : ℤ → ℤ → App → M os.World (List (Bytes × ℕ))
  unfolding get_io_helper
  io_get_max major minor app = get_io_helper (codes "io.max") major minor app
