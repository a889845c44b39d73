-- ===== src/Environment/Wayland/Lowest.antt =====
-- The socket that is found has the lowest number.
use runwhenidle.Prelude.{
  ℕ, ◌≤◌, ◌≡◌, refl, sym, ap, subst, ◌∙◌, inl, inr, Bool, true, false, Option, none, some, List, [],
  ◌∷◌, arith, Bool-cases, ◌<◌, ltb, ◌==◌, length, if◌then◌else◌, ◌||◌, ◌&&◌,
}
use mathlib.Core.List.{Memᴰ}
use mathlib.Core.List.Memᴰ
use mathlib.Core.Bool.{false≢true}
use mathlib.Core.Option.{some-injective, none-ne-some}
use runwhenidle.Environment.Files.{Files}
use runwhenidle.Environment.Wayland.{
  int_max, numeric_suffix, Best, better, is_candidate, best_of,
  find_best_wayland_socket_in_runtime_dir, in_arrays, path_in, path_max,
}
use runwhenidle.Environment.Wayland.Choice.{number, Step, lowest_of, better-Step, numeric_suffix-le}

module _ (files : Files) (runtime_dir : List ℕ) where
  -- A good choice among the sockets in `all`.
  record IsGood (all : List (List ℕ)) (b : Best) : Type 0 where
    listed : Memᴰ b.name all
    candidate : is_candidate files runtime_dir b.name ≡ true
    counted : b.lowest ≡ number b.name

  -- There is a choice, and it is no higher than `n`.
  abbrev AtMost : Option Best → ℕ → Type 0
  AtMost best n = (b : Best) × (best ≡ some b) × (b.lowest ≤ n)

  -- What is asked of the result of the loop over `rest`.
  abbrev Chosen : List (List ℕ) → List (List ℕ) → Option Best → Option Best → Type 0
  Chosen all rest best r =
      ((b : Best) → r ≡ some b → IsGood all b)
      × ((n : ℕ) → AtMost best n → AtMost r n)
      × ((name : List ℕ)
          → Memᴰ name rest
          → is_candidate files runtime_dir name ≡ true
          → AtMost r (number name))

  IsGood-small : (all : List (List ℕ)) (b : Best) → IsGood all b → b.lowest ≤ int_max
  IsGood-small all b h = subst (λ n. n ≤ int_max) (sym h.counted) (numeric_suffix-le b.name)

  module _ (all rest : List (List ℕ)) (best : Option Best) (name : List ℕ) (r : Option Best) where
    Chosen-taken :
        (step : Step best (numeric_suffix name) name)
        → Chosen all rest (some step.chosen) r
        → Chosen all (name ∷ rest) best r
    Chosen-taken step h = (
      h.0,
      λ n (b, e, low). h.1 n (step.chosen, refl, omega (arith, step.lower b e)),
      λ other m c. elim m [
        | Memᴰ.head e ↦
            subst (λ k. AtMost r (number k)) (sym e)
              (h.1 (number name) (step.chosen, refl, step.low))
        | Memᴰ.tail k ↦ h.2 other k c
      ],
    )

    Chosen-skipped :
        is_candidate files runtime_dir name ≡ false
        → Chosen all rest best r
        → Chosen all (name ∷ rest) best r
    Chosen-skipped refused h = (
      h.0,
      h.1,
      λ other m c. elim m [
        | Memᴰ.head e ↦
            absurd (false≢true (sym refused ∙ ap (is_candidate files runtime_dir) (sym e) ∙ c))
        | Memᴰ.tail k ↦ h.2 other k c
      ],
    )

  IsGood-Step :
      (all : List (List ℕ)) (best : Option Best) (name : List ℕ)
      (step : Step best (numeric_suffix name) name)
      → Memᴰ name all
      → is_candidate files runtime_dir name ≡ true
      → ((b : Best) → best ≡ some b → IsGood all b)
      → IsGood all step.chosen
  IsGood-Step all best name step m c good = elim step.from [
    | inl e ↦ subst (IsGood all) (sym e) (record { listed = m; candidate = c; counted = refl })
    | inr e ↦ good step.chosen e
  ]

  best_of-Chosen :
      (all rest : List (List ℕ)) (best : Option Best)
      → ((name : List ℕ) → Memᴰ name rest → Memᴰ name all)
      → ((b : Best) → best ≡ some b → IsGood all b)
      → Chosen all rest best (best_of files runtime_dir best rest)
  unfolding best_of
  best_of-Chosen all [] best sub good = (good, λ n h. h, λ name m c. absurd (Memᴰ.not-nil m))
  best_of-Chosen all (name ∷ rest) best sub good =
      elim (Bool-cases (is_candidate files runtime_dir name)) [
        | inl e ↦
            let step =
              better-Step best (numeric_suffix name) name (λ b k. IsGood-small all b (good b k))
                (numeric_suffix-le name) in
            let path =
              ap (λ t. if t then better best (numeric_suffix name) name else best) e ∙ step.is in
            Chosen-taken all rest best name _ step (
              subst (λ o. Chosen all rest (some step.chosen) (best_of files runtime_dir o rest))
                (sym path)
                (best_of-Chosen all rest (some step.chosen) (λ k m. sub k (Memᴰ.tail m))
                  (λ b k.
                    subst (IsGood all) (some-injective step.chosen b k)
                      (IsGood-Step all best name step (sub name (Memᴰ.head refl)) e good))))
        | inr e ↦
            let path = ap (λ t. if t then better best (numeric_suffix name) name else best) e in
            Chosen-skipped all rest best name _ e (
              subst (λ o. Chosen all rest best (best_of files runtime_dir o rest)) (sym path)
                (best_of-Chosen all rest best (λ k m. sub k (Memᴰ.tail m)) good))
      ]

middle : (a b c : Bool) → a && b && c ≡ true → b ≡ true
middle a b c e = ground arith

both : (a b c : Bool) → a ≡ true → c ≡ true → a && (b || c) ≡ true
both a b c e k = ground arith

ltb_of_lt : (a b : ℕ) → a < b → ltb a b ≡ true
ltb_of_lt a b h = ground arith

module _ (files : Files) (runtime_dir : List ℕ) (names : List (List ℕ)) (name_size : ℕ) where
  abbrev Found : Option (List ℕ × List ℕ) → Type 0
  Found r =
      ((path name : List ℕ)
        → r ≡ some (path, name)
        → (path ≡ path_in runtime_dir name)
          × Memᴰ name names
          × (is_candidate files runtime_dir name ≡ true)
          × ((other : List ℕ)
              → Memᴰ other names
              → is_candidate files runtime_dir other ≡ true
              → number name ≤ number other))
      × (r ≡ none
          → (other : List ℕ) → Memᴰ other names
          → is_candidate files runtime_dir other ≡ false)

  fits_path :
      (name : List ℕ)
      → is_candidate files runtime_dir name ≡ true
      → ltb (length (path_in runtime_dir name)) path_max ≡ true
  unfolding is_candidate
  fits_path name e = middle _ _ _ e

  -- What is asked of the path and the name.
  abbrev IsFound : List ℕ × List ℕ → Type 0
  IsFound r =
      (r.0 ≡ path_in runtime_dir r.1)
      × Memᴰ r.1 names
      × (is_candidate files runtime_dir r.1 ≡ true)
      × ((other : List ℕ)
          → Memᴰ other names
          → is_candidate files runtime_dir other ≡ true
          → number r.1 ≤ number other)

  Found-some :
      (b : Best)
      → Chosen files runtime_dir names names none (some b)
      → Found (some (path_in runtime_dir b.name, b.name))
  unfolding lowest_of
  Found-some b h =
      let good = h.0 b refl in
      (
        λ path name e.
            subst IsFound (some-injective (path_in runtime_dir b.name, b.name) (path, name) e) (
              refl,
              good.listed,
              good.candidate,
              λ other m c.
                  let (k, eq, low) = h.2 other m c in
                  omega (arith, ap lowest_of eq, good.counted, low),
            ),
        λ e. absurd (none-ne-some _ (sym e)),
      )

  Found-in_arrays :
      (best : Option Best)
      → Chosen files runtime_dir names names none best
      → ((name : List ℕ) → Memᴰ name names → length name < name_size)
      → Found (in_arrays files runtime_dir path_max name_size best)
  unfolding in_arrays
  Found-in_arrays none h fits = (
    λ path name e. absurd (none-ne-some _ e),
    λ _ other m. elim (Bool-cases (is_candidate files runtime_dir other)) [
      | inl c ↦ absurd (none-ne-some _ (h.2 other m c).1)
      | inr c ↦ c
    ],
  )
  Found-in_arrays (some b) h fits =
      let good = h.0 b refl in
      let room : ltb (length (path_in runtime_dir b.name)) path_max
            && (name_size == 0 || ltb (length b.name) name_size)
          ≡ true =
        both _ _ _ (fits_path b.name good.candidate) (ltb_of_lt _ _ (fits b.name good.listed)) in
      subst (λ t. Found (if t then some (path_in runtime_dir b.name, b.name) else none)) (sym room)
        (Found-some b h)

  find-eq :
      files.names runtime_dir ≡ some names
      → find_best_wayland_socket_in_runtime_dir files runtime_dir path_max name_size
        ≡ in_arrays files runtime_dir path_max name_size (best_of files runtime_dir none names)
  unfolding find_best_wayland_socket_in_runtime_dir
  find-eq read =
      ap
        (λ o. elim o [
          | none ↦ none
          | some found ↦
              in_arrays files runtime_dir path_max name_size (best_of files runtime_dir none found)
        ])
        read

-- Where the directory can be read and its names fit: what is found is a socket of the directory with
-- its path, and none of the others has a lower number, a name without a number counting as the
-- largest one; and nothing is found only where there is no such socket.
pub find_best_wayland_socket_lem :
    (files : Files) (runtime_dir : List ℕ) (names : List (List ℕ)) (name_size : ℕ)
    → files.names runtime_dir ≡ some names
    → ((name : List ℕ) → Memᴰ name names → length name < name_size)
    → ((path name : List ℕ)
        → find_best_wayland_socket_in_runtime_dir files runtime_dir path_max name_size
          ≡ some (path, name)
        → (path ≡ path_in runtime_dir name)
          × Memᴰ name names
          × (is_candidate files runtime_dir name ≡ true)
          × ((other : List ℕ)
              → Memᴰ other names
              → is_candidate files runtime_dir other ≡ true
              → number name ≤ number other))
      × (find_best_wayland_socket_in_runtime_dir files runtime_dir path_max name_size ≡ none
          → (other : List ℕ) → Memᴰ other names
          → is_candidate files runtime_dir other ≡ false)
find_best_wayland_socket_lem files runtime_dir names name_size read fits =
    subst (Found files runtime_dir names name_size)
      (sym (find-eq files runtime_dir names name_size read))
      (Found-in_arrays files runtime_dir names name_size (best_of files runtime_dir none names)
        (best_of-Chosen files runtime_dir names names none (λ n m. m)
          (λ b e. absurd (none-ne-some b e)))
        fits)
