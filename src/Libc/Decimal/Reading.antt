-- ===== src/Libc/Decimal/Reading.antt =====
-- A number that has been printed is read back.
use runwhenidle.Prelude.{
  ℕ, zero, suc, ◌+◌, ◌*◌, ◌/◌, ◌%◌, ◌^◌, ◌≤◌, ◌<◌, ◌≡◌, ◌≢◌, ◌⊎◌, inl, inr, refl, ap, ◌∙◌, true,
  false, List, [], ◌∷◌, length, ltb, arith, Bool-cases, some,
}
use runwhenidle.Prelude.Int.{pos}
use runwhenidle.Libc.Strtol.{
  is_space, is_digit, skip_spaces, scan_digits, starts_with_digit, scan_sign, scan_number, Scanned,
  strtol, clamp_long, to_int, long_max,
}
use runwhenidle.Libc.Decimal.{digits_before, print_int}

scan_digits-digits_before :
    (fuel n : ℕ) (after : List ℕ)
    → n < fuel
    → scan_digits 0 (digits_before fuel n after) ≡ scan_digits n after
unfolding digits_before scan_digits is_digit
scan_digits-digits_before zero n after h = absurd (omega (arith, h))
scan_digits-digits_before (suc fuel) n after h =
    ground (arith, scan_digits-digits_before fuel (n / 10) ((b'0' + n % 10) ∷ after))

starts_with_digit-digits_before :
    (fuel n : ℕ) (after : List ℕ) → n < fuel → starts_with_digit (digits_before fuel n after) ≡ true
unfolding digits_before starts_with_digit is_digit
starts_with_digit-digits_before zero n after h = absurd (omega (arith, h))
starts_with_digit-digits_before (suc fuel) n after h =
    ground (arith, starts_with_digit-digits_before fuel (n / 10) ((b'0' + n % 10) ∷ after))

-- No space and no sign is skipped before a digit.
skip_spaces-digits : (s : List ℕ) → starts_with_digit s ≡ true → skip_spaces s ≡ s
unfolding skip_spaces starts_with_digit is_digit is_space
skip_spaces-digits [] d = refl
skip_spaces-digits (c ∷ cs) d = ground arith

scan_sign-digits : (s : List ℕ) → starts_with_digit s ≡ true → scan_sign s ≡ (false, s)
unfolding scan_sign starts_with_digit is_digit
scan_sign-digits [] d = refl
scan_sign-digits (c ∷ cs) d = ground arith

scan_number-digits :
    (s : List ℕ) (n : ℕ) (after : List ℕ)
    → starts_with_digit s ≡ true
    → scan_digits 0 s ≡ (n, after)
    → scan_number s ≡ some (record { negative = false; magnitude = n; after = after })
unfolding scan_number
scan_number-digits s n after d e =
    rw (skip_spaces-digits s d) (rw (scan_sign-digits s d) (rw d (rw e refl)))

strtol-digits : (s : List ℕ) (r : Scanned) → scan_number s ≡ some r → strtol s ≡ clamp_long r
unfolding strtol
strtol-digits s r e = rw (e, strtol) refl

pub strtol-print_int :
    (n : ℕ)
    → n ≤ long_max
    → strtol (print_int (pos n)) ≡ record { value = pos n; end = []; out_of_range = false }
unfolding print_int scan_digits
strtol-print_int n h =
    strtol-digits _ _ (
      scan_number-digits _ n [] (starts_with_digit-digits_before (n + 1) n [] (omega arith))
        (scan_digits-digits_before (n + 1) n [] (omega arith)))
    ∙ small
  where
    small :
        clamp_long (record { negative = false; magnitude = n; after = [] })
        ≡ record { value = pos n; end = []; out_of_range = false }
    small = ground arith

to_int-pos : (n : ℕ) → n < 2 ^ 31 → to_int (pos n) ≡ pos n
unfolding to_int
to_int-pos n h = ground arith

pub to_int-strtol-print_int :
    (n : ℕ) → n < 2 ^ 31 → to_int (strtol (print_int (pos n))).value ≡ pos n
to_int-strtol-print_int n h =
    ap (λ r. to_int r.value) (strtol-print_int n (omega arith)) ∙ to_int-pos n h

-- Bytes that do not stand in a string.
abbrev pub Avoids : ℕ → List ℕ → Type 0
Avoids b [] = Unit
Avoids b (c ∷ cs) = (c ≢ b) × Avoids b cs

abbrev pub IsNoDigit : ℕ → Type 0
IsNoDigit b = (b < b'0') ⊎ (b'9' < b)

digits_before-Avoids :
    (b fuel n : ℕ) (after : List ℕ)
    → IsNoDigit b
    → Avoids b after
    → Avoids b (digits_before fuel n after)
unfolding digits_before
digits_before-Avoids b zero n after no_digit h = h
digits_before-Avoids b (suc fuel) n after no_digit h = elim (Bool-cases (ltb n 10)) [
  | inl e ↦ rw e (other, h)
  | inr e ↦ rw e (digits_before-Avoids b fuel (n / 10) _ no_digit (other, h))
]
  where
    other : b'0' + n % 10 ≢ b
    other e = elim no_digit [ inl h ↦ omega (arith, e, h) | inr h ↦ omega (arith, e, h) ]

pub print_int-Avoids : (b n : ℕ) → IsNoDigit b → Avoids b (print_int (pos n))
unfolding print_int
print_int-Avoids b n no_digit = digits_before-Avoids b (n + 1) n [] no_digit tt

pub starts_with_digit-print_int : (n : ℕ) → starts_with_digit (print_int (pos n)) ≡ true
unfolding print_int
starts_with_digit-print_int n = starts_with_digit-digits_before (n + 1) n [] (omega arith)

abbrev pub power_of_ten : ℕ → ℕ
power_of_ten zero = 1
power_of_ten (suc k) = 10 * power_of_ten k

-- A number has no more digits than it is given.
length-digits_before :
    (k fuel n : ℕ) (after : List ℕ)
    → n < power_of_ten (suc k)
    → length (digits_before fuel n after) ≤ suc k + length after
unfolding digits_before
length-digits_before k zero n after h = omega arith
length-digits_before zero (suc fuel) n after h = ground arith
length-digits_before (suc k) (suc fuel) n after h =
    ground
      (arith, length-digits_before k fuel (n / 10) ((b'0' + n % 10) ∷ after) (omega (arith, h)))

pub length-print_int : (k n : ℕ) → n < power_of_ten (suc k) → length (print_int (pos n)) ≤ suc k
unfolding print_int
length-print_int k n h = omega (arith, length-digits_before k (n + 1) n [] h)
