-- ===== src/Libc/Decimal.antt =====
-- Numbers as printf writes them with "%d", and that strtol reads them back.
pub mod Reading
use runwhenidle.Prelude.{ℕ, zero, suc, ◌+◌, ◌/◌, ◌%◌, List, [], ◌∷◌, ltb, if◌then◌else◌}
use runwhenidle.Prelude.Int.{ℤ, pos, negsuc}

-- The decimal digits of a number before those given; the number itself is fuel enough.
unfoldable pub digits_before : ℕ → ℕ → List ℕ → List ℕ
digits_before zero n after = after
digits_before (suc fuel) n after =
    let digits = (b'0' + n % 10) ∷ after in
    let rest = digits_before fuel (n / 10) digits in if ltb n 10 then digits else rest

-- "%d"
unfoldable pub print_int : ℤ → List ℕ
unfolding digits_before
print_int (pos n) = digits_before (n + 1) n []
print_int (negsuc n) = b'-' ∷ digits_before (n + 2) (n + 1) []
