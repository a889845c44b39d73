-- ===== src/Prelude/Lists.antt =====
-- Lists measured and indexed by native numbers, under the library's names.
use Prim.Native.Nat.{ℕ, zero, suc, ◌+◌}
use Prim.Native.Nat.{◌≤◌}
use mathlib.Core.Path.{◌≡◌, refl, ap}
use mathlib.Core.List.{List, [], ◌∷◌, ◌++◌, map}
use native.Mathlib.Omega.{arith}

module _ {ℓ} {A : Type ℓ} where
  abbrev pub length : List A → ℕ
  length [] = 0
  length (x ∷ xs) = suc (length xs)

  abbrev pub get_or : List A → ℕ → A → A
  get_or [] i d = d
  get_or (x ∷ xs) zero d = x
  get_or (x ∷ xs) (suc i) d = get_or xs i d

  abbrev pub take : ℕ → List A → List A
  take zero xs = []
  take (suc n) [] = []
  take (suc n) (x ∷ xs) = x ∷ take n xs

  abbrev pub drop : ℕ → List A → List A
  drop zero xs = xs
  drop (suc n) [] = []
  drop (suc n) (x ∷ xs) = drop n xs

  pub length-append : (xs ys : List A) → length (xs ++ ys) ≡ length xs + length ys
  length-append [] ys = omega arith
  length-append (x ∷ xs) ys = omega (arith, length-append xs ys)

pub length-map {ℓ κ} :
    {A : Type ℓ} {B : Type κ} (f : A → B) (xs : List A) → length (map f xs) ≡ length xs
length-map f [] = refl
length-map f (x ∷ xs) = ap suc (length-map f xs)

-- Strings of numbers, cut and read at an index.
pub take-append :
    (n m : ℕ) (xs ys : List ℕ) → length xs + m ≡ n → take n (xs ++ ys) ≡ xs ++ take m ys
take-append n m [] ys e = let e' : n ≡ m = omega (arith, e) in rw e' refl
take-append zero m (x ∷ xs) ys e = absurd (omega (arith, e))
take-append (suc n) m (x ∷ xs) ys e = ap (λ l. x ∷ l) (take-append n m xs ys (omega (arith, e)))

pub get_or-append :
    (xs ys : List ℕ) (k i d : ℕ) → length xs + k ≡ i → get_or (xs ++ ys) i d ≡ get_or ys k d
get_or-append [] ys k i d e = let e' : i ≡ k = omega (arith, e) in rw e' refl
get_or-append (x ∷ xs) ys k zero d e = absurd (omega (arith, e))
get_or-append (x ∷ xs) ys k (suc i) d e = get_or-append xs ys k i d (omega (arith, e))

pub length-take : (k : ℕ) (xs : List ℕ) → length (take k xs) ≤ k
length-take zero xs = omega arith
length-take (suc k) [] = omega arith
length-take (suc k) (x ∷ xs) = omega (arith, length-take k xs)
