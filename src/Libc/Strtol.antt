-- ===== src/Libc/Strtol.antt =====
-- `strtol` in base 10, `sscanf` with "%d", and the conversion of a `long` to an `int`.
use runwhenidle.Prelude.{
  ℕ, ◌+◌, ◌-◌, ◌*◌, ◌%◌, ◌^◌, Bool, true, false, ◌&&◌, ◌||◌, Option, none, some, List, [], ◌∷◌, ltb,
  leb, ◌==◌, if◌then◌else◌,
}
use runwhenidle.Prelude.Int.{ℤ, pos, negsuc}

unfoldable pub is_space : ℕ → Bool
is_space c = c == 32 || (leb 9 c && leb c 13)

unfoldable pub is_digit : ℕ → Bool
is_digit c = leb b'0' c && leb c b'9'

unfoldable pub skip_spaces : List ℕ → List ℕ
unfolding is_space
skip_spaces [] = []
skip_spaces (c ∷ cs) = if is_space c then skip_spaces cs else c ∷ cs

-- The value of the leading digits, after `n`, and what follows them.
unfoldable pub scan_digits : ℕ → List ℕ → ℕ × List ℕ
unfolding is_digit
scan_digits n [] = (n, [])
scan_digits n (c ∷ cs) = if is_digit c then scan_digits (n * 10 + (c - 48)) cs else (n, c ∷ cs)

unfoldable pub starts_with_digit : List ℕ → Bool
unfolding is_digit
starts_with_digit [] = false
starts_with_digit (c ∷ cs) = is_digit c

-- Whether there is a minus, and what follows the sign.
unfoldable pub scan_sign : List ℕ → Bool × List ℕ
scan_sign [] = (false, [])
scan_sign (c ∷ cs) =
    if c == b'-' then (true, cs) else if c == b'+' then (false, cs) else (false, c ∷ cs)

abbrev pub long_max : ℕ
long_max = 2 ^ 63 - 1

-- The number without a bound, or `none` where no digit is found.
pub record Scanned : Type 0 where
  pub negative : Bool
  pub magnitude : ℕ
  pub after : List ℕ

unfoldable pub scan_number : List ℕ → Option Scanned
unfolding skip_spaces scan_sign scan_digits starts_with_digit
scan_number s =
    let (negative, digits) = scan_sign (skip_spaces s) in
    let (magnitude, after) = scan_digits 0 digits in
    if starts_with_digit digits
    then some (record { negative = negative; magnitude = magnitude; after = after })
    else none

pub record StrtolResult : Type 0 where
  pub value : ℤ
  -- where `endptr` points
  pub end : List ℕ
  -- whether errno becomes ERANGE; it is not changed otherwise
  pub out_of_range : Bool

abbrev pub signed : Bool → ℕ → ℤ
signed true n = if n == 0 then pos 0 else negsuc (n - 1)
signed false n = pos n

-- LONG_MAX or LONG_MIN where the number does not fit.
abbrev pub clamp_long : Scanned → StrtolResult
clamp_long r =
    if r.negative
    then (if leb r.magnitude (long_max + 1)
        then record { value = signed true r.magnitude; end = r.after; out_of_range = false }
        else record { value = negsuc long_max; end = r.after; out_of_range = true })
    else (if leb r.magnitude long_max
        then record { value = pos r.magnitude; end = r.after; out_of_range = false }
        else record { value = pos long_max; end = r.after; out_of_range = true })

unfoldable pub strtol : List ℕ → StrtolResult
unfolding scan_number
strtol s = elim (scan_number s) [
  | none ↦ record { value = pos 0; end = s; out_of_range = false }
  | some r ↦ clamp_long r
]

-- The low 32 bits, read as a signed number.
unfoldable pub to_int : ℤ → ℤ
to_int (pos n) = let w = n % 2 ^ 32 in if ltb w (2 ^ 31) then pos w else negsuc (2 ^ 32 - w - 1)
to_int (negsuc n) = let w = n % 2 ^ 32 in if ltb w (2 ^ 31) then negsuc w else pos (2 ^ 32 - w - 1)

-- `none` where sscanf does not return 1.
unfoldable pub sscanf_int : List ℕ → Option ℤ
unfolding scan_number to_int
sscanf_int s = elim (scan_number s) [
  | none ↦ none
  | some r ↦ some (to_int (signed r.negative r.magnitude))
]
