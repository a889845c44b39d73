-- ===== src/Arguments/Remaining/Joined.antt =====
-- The string is the arguments with one space between them.
use runwhenidle.Prelude.{
  ℕ, ◌≡◌, refl, sym, ap, ◌∙◌, List, [], ◌∷◌, ◌++◌, length, length-append, arith, ==_iff, true,
}
use mathlib.Core.Bool.{false≢true}
use mathlib.Core.List.{append-nil}
use runwhenidle.System.{
  Os, State, Wp, Wp-branch, Wp-pure, Wp-ask, Wp-bind-Framed, Event, Framed, signals,
}
use runwhenidle.Arguments.Remaining.{
  memory_to_be_allocated, fill, terminate_last, read_remaining_arguments_as_char,
}

-- An independent description of it.
pub join : List (List ℕ) → List ℕ
join [] = []
join (a ∷ []) = a
join (a ∷ b ∷ rest) = a ++ b' ' ∷ join (b ∷ rest)

length-fill : (rest : List (List ℕ)) → length (fill rest) ≡ memory_to_be_allocated rest
unfolding fill memory_to_be_allocated
length-fill [] = refl
length-fill (a ∷ rest) = ground (arith, length-append a (b' ' ∷ fill rest), length-fill rest)

terminate_last-append :
    (xs : List ℕ) (y : ℕ) (ys : List ℕ)
    → terminate_last (xs ++ y ∷ ys) ≡ xs ++ terminate_last (y ∷ ys)
unfolding terminate_last
terminate_last-append [] y ys = refl
terminate_last-append (x ∷ []) y ys = refl
terminate_last-append (x ∷ z ∷ xs) y ys = ap (λ l. x ∷ l) (terminate_last-append (z ∷ xs) y ys)

terminate_last-fill :
    (a : List ℕ) (rest : List (List ℕ)) → terminate_last (fill (a ∷ rest)) ≡ join (a ∷ rest)
unfolding fill terminate_last join
terminate_last-fill a [] = terminate_last-append a b' ' [] ∙ append-nil a
terminate_last-fill a (b ∷ rest) =
    terminate_last-append a b' ' (fill (b ∷ rest))
    ∙ ap (λ l. a ++ l)
        (terminate_last-append (b' ' ∷ b) b' ' (fill rest)
          ∙ ap (λ l. b' ' ∷ l)
              (sym (terminate_last-append b b' ' (fill rest)) ∙ terminate_last-fill b rest))

-- With an argument to read and memory to be had, the assertion holds, and what is returned is the
-- arguments with one space between any two of them.
pub read_remaining_arguments_lem :
    (os : Os) (a : List ℕ) (rest : List (List ℕ)) (s : State)
    → ((h : List Event) (n : ℕ) → os.allocates h n ≡ true)
    → Wp
        (read_remaining_arguments_as_char os (a ∷ rest))
        (Framed s (λ text tr. (text ≡ join (a ∷ rest)) × (signals tr ≡ signals s.trace)))
        (λ c t. ⊥)
        s
unfolding read_remaining_arguments_as_char
read_remaining_arguments_lem os a rest s allocates =
    Wp-bind-Framed (λ allowed tr. (allowed ≡ true) × (signals tr ≡ signals s.trace)) (λ _ _. ⊥)
      (Wp-ask _ _ (refl, (allocates s.trace _, refl)))
      (λ allowed tr h.
        Wp-branch _ _ _
          (λ _.
            Wp-branch _ _ _ (λ _. Wp-pure _ (refl, (terminate_last-fill a rest, h.1)))
              (λ e. absurd (false≢true (sym e ∙ (==_iff _ _).1 (length-fill (a ∷ rest))))))
          (λ e. absurd (false≢true (sym e ∙ h.0))))
      (λ c tr h. absurd h)
