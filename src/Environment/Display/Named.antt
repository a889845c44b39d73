-- ===== src/Environment/Display/Named.antt =====
-- A display's socket is found by the number that DISPLAY names it with.
use runwhenidle.Prelude.{
  ℕ, ◌<◌, ◌^◌, ◌≡◌, sym, ap, ◌∙◌, Bool, true, ◌&&◌, ◌==◌, length, if◌then◌else◌, Option, none, some,
  List, [], ◌∷◌, arith,
}
use runwhenidle.Prelude.Int.{ℤ, pos}
use runwhenidle.Libc.Decimal.{print_int}
use runwhenidle.Libc.Decimal.Reading.{
  starts_with_digit-print_int, strtol-print_int, to_int-strtol-print_int,
}
use runwhenidle.Environment.Files.{Files, file_is_socket}
use runwhenidle.Environment.Display.{socket_path, display_number, display_of, display_text}

display_number-print_int :
    (n : ℕ) → n < 2 ^ 31 → display_number (b'X' ∷ print_int (pos n)) ≡ some (pos n)
unfolding display_number
display_number-print_int n fits =
    chosen _ (starts_with_digit-print_int n)
      (ap (λ r. length r.end == 0) (strtol-print_int n (omega (arith, fits)))) _
    ∙ ap some (to_int-strtol-print_int n fits)
  where
    chosen :
        (a : Bool) {b : Bool}
        → a ≡ true
        → b ≡ true
        → (x : ℤ) → (if a && b then some x else none) ≡ some x
    chosen a e f x = ground arith

where_socket :
    (b : Bool) (x : Option ℤ) (n : ℤ) → b ≡ true → x ≡ some n → (if b then x else none) ≡ some n
where_socket b x n e f = ground arith

after_colon : Option (List ℕ) → List ℕ
after_colon none = []
after_colon (some []) = []
after_colon (some (c ∷ cs)) = cs

-- For a number that an int can hold, with a socket of the name "X" and the number: the entry counts
-- as that display, and the text for DISPLAY is ":" and the number.
pub display_of-display_text :
    (files : Files) (n : ℕ) (digits : List ℕ)
    → n < 2 ^ 31
    → display_text (some (pos n)) ≡ some (b':' ∷ digits)
    → file_is_socket files (socket_path (b'X' ∷ digits)) ≡ true
    → display_of files (b'X' ∷ digits) ≡ some (pos n)
unfolding after_colon
display_of-display_text files n digits fits text is_socket = where_socket _ _ (pos n) is_socket (
    ap (λ l. display_number (b'X' ∷ l)) (sym (ap after_colon text))
    ∙ display_number-print_int n fits)
