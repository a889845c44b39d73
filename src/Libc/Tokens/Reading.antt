-- ===== src/Libc/Tokens/Reading.antt =====
-- What is read of an array whose bytes are known.
use runwhenidle.Prelude.{
  ℕ, zero, suc, ◌+◌, ◌<◌, ◌≡◌, refl, ap, subst, ◌∙◌, true, some, List, [], ◌∷◌, ◌++◌, length,
  length-append, take, get_or, get_or-append, arith,
}
use mathlib.Core.Bool.{false≢true}
use mathlib.Core.List.{append_assoc}
use runwhenidle.Libc.Strtol.{starts_with_digit, is_digit}
use runwhenidle.Libc.Tokens.{skip_blanks, until_blank, nonempty, strtok_blank, read_string}
use runwhenidle.Libc.Decimal.Reading.{Avoids}

-- Where the bytes are those of a string.
abbrev pub Spells : (ℕ → ℕ) → List ℕ → ℕ → Type 0
Spells bytes [] start = bytes start ≡ 0
Spells bytes (c ∷ cs) start = (bytes start ≡ c) × Spells bytes cs (start + 1)

pub read_string-Spells :
    (bytes : ℕ → ℕ) (s : List ℕ) (room start : ℕ)
    → Spells bytes s start
    → Avoids 0 s
    → length s < room
    → read_string bytes room start ≡ some s
unfolding read_string
read_string-Spells bytes s zero start h no_end lt = absurd (omega (arith, lt))
read_string-Spells bytes [] (suc room) start h no_end lt = rw h refl
read_string-Spells bytes (c ∷ cs) (suc room) start h no_end lt =
    rw (read_string-Spells bytes cs room (start + 1) h.1 no_end.1 (omega (arith, lt)))
      (rw h.0 (ground (arith, no_end.0)))

pub append-Spells :
    (u : ℕ → ℕ) (xs s ys : List ℕ) (start : ℕ)
    → length xs ≡ start
    → Spells (λ i. get_or (xs ++ (s ++ 0 ∷ ys)) i (u i)) s start
append-Spells u xs [] ys start e = get_or-append xs (0 ∷ ys) 0 start (u start) (omega (arith, e))
append-Spells u xs (c ∷ cs) ys start e = (
  get_or-append xs (c ∷ (cs ++ 0 ∷ ys)) 0 start (u start) (omega (arith, e)),
  subst (λ l. Spells (λ i. get_or l i (u i)) cs (start + 1))
      (append_assoc xs (c ∷ []) (cs ++ 0 ∷ ys))
      (append-Spells u (xs ++ c ∷ []) cs ys (start + 1)
        (omega (arith, length-append xs (c ∷ []), e))),
)

until_blank-append :
    (xs ys : List ℕ) → Avoids b' ' xs → get_or ys 0 b' ' ≡ b' ' → until_blank (xs ++ ys) ≡ xs
unfolding until_blank
until_blank-append [] [] h e = refl
until_blank-append [] (y ∷ ys) h e = ground (arith, e)
until_blank-append (x ∷ xs) ys h e = rw (until_blank-append xs ys h.1 e) (ground (arith, h.0))

pub strtok_blank-append :
    (xs ys : List ℕ)
    → Avoids b' ' xs
    → starts_with_digit xs ≡ true
    → get_or ys 0 b' ' ≡ b' '
    → strtok_blank (b' ' ∷ (xs ++ ys)) ≡ some xs
unfolding strtok_blank skip_blanks starts_with_digit is_digit
strtok_blank-append [] ys h d e = absurd (false≢true d)
strtok_blank-append (x ∷ xs) ys h d e = ap nonempty (
    ap until_blank {x = skip_blanks (b' ' ∷ x ∷ (xs ++ ys))} {y = x ∷ (xs ++ ys)}
      (ground (arith, h.0))
    ∙ until_blank-append (x ∷ xs) ys h e)

pub Avoids-append : (b : ℕ) (xs ys : List ℕ) → Avoids b xs → Avoids b ys → Avoids b (xs ++ ys)
Avoids-append b [] ys h k = k
Avoids-append b (x ∷ xs) ys h k = (h.0, Avoids-append b xs ys h.1 k)

pub Avoids-take : (b n : ℕ) (xs : List ℕ) → Avoids b xs → Avoids b (take n xs)
Avoids-take b zero xs h = tt
Avoids-take b (suc n) [] h = tt
Avoids-take b (suc n) (x ∷ xs) h = (h.0, Avoids-take b n xs h.1)
