-- ===== src/Environment/Display/Minimum.antt =====
-- The display that is found is the lowest one.
use runwhenidle.Prelude.{
  ℕ, ◌≡◌, refl, sym, ap, subst, ◌∙◌, ◌⊎◌, inl, inr, true, Option, none, some, List, [], ◌∷◌, arith,
  Bool-cases, Option-cases, if◌then◌else◌,
}
use mathlib.Core.Option.{none-ne-some, some-injective}
use mathlib.Core.List.{Memᴰ}
use mathlib.Core.List.Memᴰ
use runwhenidle.Prelude.Int.{ℤ, ltb_ℤ, ◌≤ℤ◌, ≤ℤ_of_ltb_ℤ}
use runwhenidle.Environment.Files.{Files}
use runwhenidle.Libc.Decimal.{print_int}
use runwhenidle.Environment.Display.{
  display_of, lower, lowest_display, display_text, x11_socket_dir,
  find_best_x11_display_from_socket_dir,
}

-- There is a display, and it is no higher than `n`.
abbrev pub AtMost : Option ℤ → ℤ → Type 0
AtMost best n = (k : ℤ) × (best ≡ some k) × (k ≤ℤ n)

lower-AtMost : (best : Option ℤ) (n : ℤ) → AtMost (lower best (some n)) n
lower-AtMost none n = (n, refl, omega arith)
lower-AtMost (some b) n = elim (Bool-cases (ltb_ℤ n b)) [
  | inl e ↦ rw e (n, refl, omega arith)
  | inr e ↦ rw e (b, refl, ≤ℤ_of_ltb_ℤ n b e)
]

lt_of_ltb : (n b : ℤ) → ltb_ℤ n b ≡ true → n ≤ℤ b
lt_of_ltb n b e = ground arith

lower-keep : (best : Option ℤ) (o : Option ℤ) (n : ℤ) → AtMost best n → AtMost (lower best o) n
lower-keep best none n h = h
lower-keep none (some m) n (k, e, low) = absurd (none-ne-some k e)
lower-keep (some b) (some m) n (k, e, low) =
    let b-low : b ≤ℤ n = subst (λ x. x ≤ℤ n) (sym (some-injective b k e)) low in
    elim (Bool-cases (ltb_ℤ m b)) [
      | inl t ↦ rw t (m, refl, omega (arith, lt_of_ltb m b t, b-low))
      | inr t ↦ rw t (b, refl, b-low)
    ]

-- The result comes from where the loop started or from one of the names.
lower-from : (best o : Option ℤ) (n : ℤ) → lower best o ≡ some n → (best ≡ some n) ⊎ (o ≡ some n)
lower-from best none n e = inl e
lower-from none (some m) n e = inr e
lower-from (some b) (some m) n e = elim (Bool-cases (ltb_ℤ m b)) [
  | inl t ↦ inr (ap (λ c. if c then some m else some b) (sym t) ∙ e)
  | inr t ↦ inl (ap (λ c. if c then some m else some b) (sym t) ∙ e)
]

module _ (files : Files) where
  lowest-keep :
      (names : List (List ℕ)) (best : Option ℤ) (n : ℤ)
      → AtMost best n
      → AtMost (lowest_display files best names) n
  unfolding lowest_display
  lowest-keep [] best n h = h
  lowest-keep (name ∷ rest) best n h =
      lowest-keep rest (lower best (display_of files name)) n
        (lower-keep best (display_of files name) n h)

  lowest-AtMost :
      (names : List (List ℕ)) (best : Option ℤ) (name : List ℕ) (n : ℤ)
      → Memᴰ name names
      → display_of files name ≡ some n
      → AtMost (lowest_display files best names) n
  unfolding lowest_display
  lowest-AtMost [] best name n m e = absurd (Memᴰ.not-nil m)
  lowest-AtMost (first ∷ rest) best name n (Memᴰ.head eq) e = lowest-keep rest _ n (
      subst (λ o. AtMost (lower best o) n) (sym (ap (display_of files) (sym eq) ∙ e))
        (lower-AtMost best n))
  lowest-AtMost (first ∷ rest) best name n (Memᴰ.tail m) e = lowest-AtMost rest _ name n m e

  lowest-from :
      (names : List (List ℕ)) (best : Option ℤ) (n : ℤ)
      → lowest_display files best names ≡ some n
      → (best ≡ some n) ⊎ ((name : List ℕ) × Memᴰ name names × (display_of files name ≡ some n))
  unfolding lowest_display
  lowest-from [] best n e = inl e
  lowest-from (first ∷ rest) best n e = elim (lowest-from rest _ n e) [
    | inl k ↦ elim (lower-from best (display_of files first) n k) [
      | inl a ↦ inl a
      | inr b ↦ inr (first, Memᴰ.head refl, b)
    ]
    | inr (name, m, k) ↦ inr (name, Memᴰ.tail m, k)
  ]

module _ (files : Files) (names : List (List ℕ)) where
  abbrev Found : Option (List ℕ) → Type 0
  Found r =
      ((text : List ℕ)
        → r ≡ some text
        → (n : ℤ) × (text ≡ b':' ∷ print_int n)
          × ((name : List ℕ) × Memᴰ name names × (display_of files name ≡ some n))
          × ((name : List ℕ) (k : ℤ) → Memᴰ name names → display_of files name ≡ some k → n ≤ℤ k))
      × (r ≡ none → (name : List ℕ) → Memᴰ name names → display_of files name ≡ none)

  Found-text :
      (lowest : Option ℤ) → lowest_display files none names ≡ lowest → Found (display_text lowest)
  Found-text none e = (
    λ text r. absurd (none-ne-some text r),
    λ _ name m. elim (Option-cases (display_of files name)) [
      | inl d ↦ d
      | inr (n, d) ↦ absurd (none-ne-some _ (sym e ∙ (lowest-AtMost files names none name n m d).1))
    ],
  )
  Found-text (some n) e = (
    λ text r. (
      n,
      sym (some-injective _ text r),
      elim (lowest-from files names none n e) [
        | inl none_is ↦ absurd (none-ne-some n none_is)
        | inr found ↦ found
      ],
      λ name k m d.
          let (j, eq, low) = lowest-AtMost files names none name k m d in
          subst (λ x. x ≤ℤ k) (some-injective j n (sym eq ∙ e)) low,
    ),
    λ r. absurd (none-ne-some _ (sym r)),
  )

  find-eq :
      files.names x11_socket_dir ≡ some names
      → find_best_x11_display_from_socket_dir files ≡ display_text (lowest_display files none names)
  unfolding find_best_x11_display_from_socket_dir
  find-eq read =
      ap (λ o. elim o [ none ↦ none | some found ↦ display_text (lowest_display files none found) ])
        read

-- Where the directory can be read: the display that is found is the number of one of the sockets in
-- it, and no socket has a lower one; and none is found only where no socket has a display number.
pub find_best_x11_display_lem :
    (files : Files) (names : List (List ℕ))
    → files.names x11_socket_dir ≡ some names
    → ((text : List ℕ)
        → find_best_x11_display_from_socket_dir files ≡ some text
        → (n : ℤ) × (text ≡ b':' ∷ print_int n)
          × ((name : List ℕ) × Memᴰ name names × (display_of files name ≡ some n))
          × ((name : List ℕ) (k : ℤ) → Memᴰ name names → display_of files name ≡ some k → n ≤ℤ k))
      × (find_best_x11_display_from_socket_dir files ≡ none
          → (name : List ℕ) → Memᴰ name names
          → display_of files name ≡ none)
find_best_x11_display_lem files names read =
    subst (Found files names) (sym (find-eq files names read))
      (Found-text files names (lowest_display files none names) refl)
