-- ===== src/Environment/Display.antt =====
-- `find_best_x11_display_from_socket_dir`.
pub mod Minimum
pub mod Named
use runwhenidle.Prelude.{
  ℕ, zero, suc, ◌+◌, ◌/◌, ◌%◌, Bool, true, false, not, ◌&&◌, ◌||◌, Option, none, some, List, [],
  ◌∷◌, ◌++◌, length, take, ltb, ◌==◌, if◌then◌else◌,
}
use runwhenidle.Prelude.Int.{ℤ, pos, negsuc, ltb_ℤ}
use runwhenidle.Libc.Decimal.{print_int}
use runwhenidle.Libc.Strtol.{strtol, to_int, starts_with_digit}
use runwhenidle.Environment.Files.{Files, file_is_socket}

-- "/tmp/.X11-unix"
abbrev pub x11_socket_dir : List ℕ
x11_socket_dir =
    b'/' ∷ b't' ∷ b'm' ∷ b'p' ∷ b'/' ∷ b'.' ∷ b'X' ∷ b'1' ∷ b'1' ∷ b'-' ∷ b'u' ∷ b'n' ∷ b'i' ∷ b'x'
    ∷ []

-- Its path has 15 bytes and the name, which has 255 at most: the array for it is never too short.
abbrev pub socket_path : List ℕ → List ℕ
socket_path name = x11_socket_dir ++ b'/' ∷ name

-- `display_number`, where the name is X and digits.
pub display_number : List ℕ → Option ℤ
display_number [] = none
display_number (c ∷ digits) =
    let parsed = strtol digits in
    if c == b'X' && starts_with_digit digits && length parsed.end == 0
    then some (to_int parsed.value)
    else none

-- The lower of the best display so far and the one of an entry.
abbrev pub lower : Option ℤ → Option ℤ → Option ℤ
lower best none = best
lower none (some n) = some n
lower (some best) (some n) = if ltb_ℤ n best then some n else some best

module _ (files : Files) where
  -- The number of an entry that is a socket.
  abbrev pub display_of : List ℕ → Option ℤ
  display_of name = if file_is_socket files (socket_path name) then display_number name else none

  -- The loop.
  pub lowest_display : Option ℤ → List (List ℕ) → Option ℤ
  lowest_display best [] = best
  lowest_display best (name ∷ rest) = lowest_display (lower best (display_of name)) rest

-- ":%d"; the text has 12 bytes at most and the callers' arrays have 32.
abbrev pub display_text : Option ℤ → Option (List ℕ)
display_text none = none
display_text (some n) = some (b':' ∷ print_int n)

-- `none` where it returns 0.
pub find_best_x11_display_from_socket_dir : Files → Option (List ℕ)
find_best_x11_display_from_socket_dir files = elim (files.names x11_socket_dir) [
  | none ↦ none
  | some names ↦ display_text (lowest_display files none names)
]
