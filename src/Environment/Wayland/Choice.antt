-- ===== src/Environment/Wayland/Choice.antt =====
-- One round of the choice among the sockets.
use runwhenidle.Prelude.{
  ℕ, ◌≤◌, ◌≡◌, refl, ap, subst, ◌⊎◌, inl, inr, Bool, true, false, Option, none, some, List, arith,
  Bool-cases, ltb, ◌==◌, not, drop, length, if◌then◌else◌, ◌||◌, ◌&&◌,
}
use runwhenidle.Prelude.Int.{ℤ, pos, negsuc, pos_part, ltb_ℤ}
use runwhenidle.Libc.Strtol.{strtol, starts_with_digit}
use runwhenidle.Environment.Wayland.{
  int_max, numeric_suffix, Best, strcmp_less, suffix_or_max, better,
}

-- The number of a socket, with the largest for one without a number.
abbrev pub number : List ℕ → ℕ
number name = suffix_or_max (numeric_suffix name)

abbrev pub entry : Option ℕ → List ℕ → Best
entry suffix name = record { lowest = suffix_or_max suffix; name = name }

-- What one round of the loop makes of the best socket so far.
pub record Step (best : Option Best) (suffix : Option ℕ) (name : List ℕ) : Type 0 where
  pub chosen : Best
  pub is : better best suffix name ≡ some chosen
  pub from : (chosen ≡ entry suffix name) ⊎ (best ≡ some chosen)
  pub low : chosen.lowest ≤ suffix_or_max suffix
  pub lower : (b : Best) → best ≡ some b → chosen.lowest ≤ b.lowest

unfoldable pub lowest_of : Option Best → ℕ
lowest_of none = 0
lowest_of (some b) = b.lowest

low_replaced : (l n : ℕ) → l == int_max || ltb n l ≡ true → n ≤ int_max → n ≤ l
low_replaced l n e small = ground arith

low_kept : (l n : ℕ) → l == int_max || ltb n l ≡ false → l ≤ n
low_kept l n e = ground arith

is_max : (l : ℕ) (b : Bool) → l == int_max && b ≡ true → l ≡ int_max
is_max l b e = ground arith

pub better-Step :
    (best : Option Best) (suffix : Option ℕ) (name : List ℕ)
    → ((b : Best) → best ≡ some b → b.lowest ≤ int_max)
    → suffix_or_max suffix ≤ int_max
    → Step best suffix name
unfolding lowest_of
better-Step none suffix name bound small = record {
  chosen = entry suffix name;
  is = refl;
  from = inl refl;
  low = omega arith;
  lower = λ b e. ground arith;
}
better-Step (some b) (some n) name bound small =
    elim (Bool-cases (b.lowest == int_max || ltb n b.lowest)) [
      | inl e ↦ record {
        chosen = entry (some n) name;
        is = rw e refl;
        from = inl refl;
        low = omega arith;
        lower = λ c eq. subst (λ k. n ≤ k) (ap lowest_of eq) (low_replaced b.lowest n e small);
      }
      | inr e ↦ record {
        chosen = b;
        is = rw e refl;
        from = inr refl;
        low = low_kept b.lowest n e;
        lower = λ c eq. omega (arith, ap lowest_of eq);
      }
    ]
better-Step (some b) none name bound small =
    elim (Bool-cases (b.lowest == int_max && strcmp_less name b.name)) [
      | inl e ↦ record {
        chosen = record b { name = name };
        is = rw e refl;
        from = inl (ap (λ k. record { lowest = k; name = name }) (is_max b.lowest _ e));
        low = bound b refl;
        lower = λ c eq. omega (arith, ap lowest_of eq);
      }
      | inr e ↦ record {
        chosen = b;
        is = rw e refl;
        from = inr refl;
        low = bound b refl;
        lower = λ c eq. omega (arith, ap lowest_of eq);
      }
    ]

in_int :
    (a b c : Bool) (v : ℤ)
    → suffix_or_max (
        if a && b && not c && not (ltb_ℤ v (pos 0)) && not (ltb_ℤ (pos int_max) v)
        then some (pos_part v)
        else none)
      ≤ int_max
in_int a b c (pos n) = ground arith
in_int a b c (negsuc n) = ground arith

pub numeric_suffix-le : (name : List ℕ) → number name ≤ int_max
unfolding numeric_suffix
numeric_suffix-le name =
    let parsed = strtol (drop 8 name) in
    in_int (starts_with_digit (drop 8 name)) (length parsed.end == 0) parsed.out_of_range
      parsed.value
