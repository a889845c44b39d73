-- ===== src/Prelude/Distinct.antt =====
-- Lists without repetition, and the pigeonhole principle.
use runwhenidle.Prelude.{
  suc, ◌≤◌, ◌≡◌, ◌≢◌, inl, inr, refl, sym, ◌∙◌, ap, List, [], ◌∷◌, ◌++◌, map, length, arith,
}
use mathlib.Core.List.{Memᴰ}
use mathlib.Core.List.Memᴰ

module _ {ℓ} {A : Type ℓ} where
  abbrev pub Distinct : List A → Type ℓ
  Distinct [] = Unit
  Distinct (x ∷ xs) = (¬ Memᴰ x xs) × Distinct xs

module _ {ℓ} {A : Type ℓ} where
  pub Distinct-append :
      (xs ys : List A)
      → Distinct xs
      → Distinct ys
      → ((a : A) → Memᴰ a xs → ¬ Memᴰ a ys)
      → Distinct (xs ++ ys)
  Distinct-append [] ys dx dy apart = dy
  Distinct-append (x ∷ xs) ys dx dy apart = (
    λ m. elim (Memᴰ.append_cases xs m) [ inl l ↦ dx.0 l | inr r ↦ apart x (Memᴰ.head refl) r ],
    Distinct-append xs ys dx.1 dy (λ a m. apart a (Memᴰ.tail m)),
  )

  -- an element of the second part does not occur in the first
  pub not-mem_of_Distinct : (xs ys : List A) (a : A) → Distinct (xs ++ ys) → Memᴰ a xs → ¬ Memᴰ a ys
  not-mem_of_Distinct [] ys a d m n = Memᴰ.not-nil m
  not-mem_of_Distinct (x ∷ xs) ys a d (Memᴰ.head e) n =
      d.0 (Memᴰ.append_right xs (Memᴰ.cast (sym e) n))
  not-mem_of_Distinct (x ∷ xs) ys a d (Memᴰ.tail m) n = not-mem_of_Distinct xs ys a d.1 m n

  without : {a : A} {l : List A} → Memᴰ a l → List A
  without (Memᴰ.head {x} {xs} e) = xs
  without (Memᴰ.tail {x} {xs} m) = x ∷ without m

  length-without : {a : A} {l : List A} (m : Memᴰ a l) → length l ≡ suc (length (without m))
  unfolding without
  length-without (Memᴰ.head e) = refl
  length-without (Memᴰ.tail m) = ap suc (length-without m)

  mem-without : {a b : A} {l : List A} (m : Memᴰ a l) → Memᴰ b l → a ≢ b → Memᴰ b (without m)
  unfolding without
  mem-without (Memᴰ.head e) (Memᴰ.head f) ne = absurd (ne (e ∙ sym f))
  mem-without (Memᴰ.head e) (Memᴰ.tail n) ne = n
  mem-without (Memᴰ.tail m) (Memᴰ.head f) ne = Memᴰ.head f
  mem-without (Memᴰ.tail m) (Memᴰ.tail n) ne = Memᴰ.tail (mem-without m n ne)

  -- distinct elements of a list are no more than its length
  pub length-le_of_Distinct :
      (xs ys : List A) → Distinct xs → ((a : A) → Memᴰ a xs → Memᴰ a ys) → length xs ≤ length ys
  length-le_of_Distinct [] ys d sub = omega arith
  length-le_of_Distinct (x ∷ xs) ys d sub =
      let m = sub x (Memᴰ.head refl) in
      let below =
        length-le_of_Distinct xs (without m) d.1
          (λ a n. mem-without m (sub a (Memᴰ.tail n)) (λ e. d.0 (Memᴰ.cast e n))) in
      omega (arith, length-without m)

-- equal images of elements with distinct images come from one element
pub eq_of_Distinct-map {ℓ κ} :
    {A : Type ℓ} {B : Type κ} (f : A → B) (a b : A) (xs : List A)
    → Distinct (map f xs)
    → Memᴰ a xs
    → Memᴰ b xs
    → f a ≡ f b
    → a ≡ b
eq_of_Distinct-map f a b _ d (Memᴰ.head e) (Memᴰ.head e') h = e ∙ sym e'
eq_of_Distinct-map f a b _ d (Memᴰ.head e) (Memᴰ.tail n) h =
    absurd (d.0 (Memᴰ.cast (sym (ap f e) ∙ h) (Memᴰ.map f n)))
eq_of_Distinct-map f a b _ d (Memᴰ.tail m) (Memᴰ.head e') h =
    absurd (d.0 (Memᴰ.cast (sym (ap f e') ∙ sym h) (Memᴰ.map f m)))
eq_of_Distinct-map f a b _ d (Memᴰ.tail {xs = zs} m) (Memᴰ.tail n) h =
    eq_of_Distinct-map f a b zs d.1 m n h
