-- ===== src/Libc/Tokens.antt =====
-- The first call of `strtok` with " ", and arrays of bytes read as strings.
pub mod Reading
use runwhenidle.Prelude.{ℕ, zero, suc, ◌+◌, Option, none, some, List, [], ◌∷◌, ◌==◌, if◌then◌else◌}
use mathlib.Core.Option

unfoldable pub skip_blanks : List ℕ → List ℕ
skip_blanks [] = []
skip_blanks (c ∷ cs) = if c == 32 then skip_blanks cs else c ∷ cs

unfoldable pub until_blank : List ℕ → List ℕ
until_blank [] = []
until_blank (c ∷ cs) = if c == 32 then [] else c ∷ until_blank cs

abbrev pub nonempty : List ℕ → Option (List ℕ)
nonempty [] = none
nonempty (c ∷ cs) = some (c ∷ cs)

-- NULL where there is no token.
unfoldable pub strtok_blank : List ℕ → Option (List ℕ)
unfolding skip_blanks until_blank
strtok_blank s = nonempty (until_blank (skip_blanks s))

-- The string that begins at `start`, in an array with `room` more bytes: `none` where no byte of
-- them is 0, so that a reader would pass the end of the array.
unfoldable pub read_string : (ℕ → ℕ) → ℕ → ℕ → Option (List ℕ)
read_string bytes zero start = none
read_string bytes (suc room) start =
    let rest = read_string bytes room (start + 1) in
    if bytes start == 0 then some [] else Option.map (λ cs. bytes start ∷ cs) rest
