-- ===== src/Process/Stat/Format.antt =====
-- The lines that the kernel writes to /proc/<pid>/stat, and what is read of them.
use runwhenidle.Prelude.{
  ℕ, zero, suc, ◌+◌, ◌-◌, ◌^◌, ◌≤◌, ◌<◌, ◌≡◌, ◌≢◌, inl, inr, refl, sym, ap, ◌∙◌, true, false,
  Bool-cases, some, List, [], ◌∷◌, ◌++◌, length, length-append, take, take-append, length-take,
  get_or, get_or-append, ◌==◌, ==_iff, arith,
}
use mathlib.Core.Bool.{false≢true}
use mathlib.Core.List.{append_assoc}
use runwhenidle.Libc.Tokens.Reading.{
  read_string-Spells, append-Spells, strtok_blank-append, Avoids-append, Avoids-take,
}
use runwhenidle.Prelude.Int.{pos}
use runwhenidle.Libc.Strtol.{strtol, to_int, starts_with_digit}
use runwhenidle.Libc.Tokens.{strtok_blank, read_string}
use runwhenidle.Libc.Decimal.{print_int}
use runwhenidle.Libc.Decimal.Reading.{
  Avoids, print_int-Avoids, starts_with_digit-print_int, length-print_int, to_int-strtol-print_int,
}
use runwhenidle.System.{value}
use runwhenidle.Process.Stat.{file_contents, find_closing, parse_parent, parse_stat}

-- "7 (name) S 1 ...": the id, the name, the state, the parent's id, and the rest.
abbrev pub stat_line : ℕ → List ℕ → ℕ → ℕ → List ℕ → List ℕ
stat_line id comm state parent rest =
    (print_int (pos id) ++ b' ' ∷ b'(' ∷ comm)
    ++ b')' ∷ b' ' ∷ state ∷ b' ' ∷ (print_int (pos parent) ++ b' ' ∷ rest)

-- Whether there is a ") " in what follows a byte.
abbrev pub HasNoEnd : List ℕ → Type 0
HasNoEnd [] = Unit
HasNoEnd (c ∷ cs) = (c ≡ b')' → get_or cs 0 b')' ≢ b' ') × HasNoEnd cs

-- No ") " before the end of the name.
not_ended :
    (xs ys : List ℕ) (i d e : ℕ)
    → HasNoEnd xs
    → i < length xs
    → get_or (xs ++ b')' ∷ ys) i d ≡ b')'
    → get_or (xs ++ b')' ∷ ys) (suc i) e ≢ b' '
not_ended [] ys i d e h lt p = absurd (omega (arith, lt))
not_ended (x ∷ []) ys zero d e h lt p = λ q. omega (arith, q)
not_ended (x ∷ y ∷ xs) ys zero d e h lt p = h.0 p
not_ended (x ∷ xs) ys (suc i) d e h lt p = not_ended xs ys i d e h.1 (omega (arith, lt)) p

find_closing-found :
    (bytes : ℕ → ℕ) (end rounds index : ℕ)
    → ((i : ℕ) → index ≤ i → i < end → bytes i ≡ b')' → bytes (i + 1) ≢ b' ')
    → bytes end ≡ b')'
    → bytes (end + 1) ≡ b' '
    → index ≤ end
    → end < index + rounds
    → find_closing bytes rounds index ≡ end
unfolding find_closing
find_closing-found bytes end zero index before e f above below =
    absurd (omega (arith, above, below))
find_closing-found bytes end (suc rounds) index before e f above below =
    elim (Bool-cases (index == end)) [
      | inl p ↦
          let same = (==_iff index end).0 p in
          rw (ap bytes same ∙ e) (rw (ap (λ n. bytes (n + 1)) same ∙ f) same)
      | inr p ↦
          let strictly : index < end = ground (arith, p) in
          let next =
            find_closing-found bytes end rounds (index + 1)
              (λ i lower upper. before i (omega (arith, lower)) upper) e f (omega (arith, strictly))
              (omega (arith, below)) in
          ground (arith, next, before index (omega arith) strictly)
    ]

HasNoEnd-append : (xs ys : List ℕ) → Avoids b')' xs → HasNoEnd ys → HasNoEnd (xs ++ ys)
HasNoEnd-append [] ys h k = k
HasNoEnd-append (x ∷ xs) ys h k = ((λ e. absurd (h.0 e)), HasNoEnd-append xs ys h.1 k)

parse_parent-found :
    (bytes : ℕ → ℕ) (index : ℕ) (s token : List ℕ)
    → index < 84
    → read_string bytes (85 - (index + 3)) (index + 3) ≡ some s
    → strtok_blank s ≡ some token
    → parse_parent bytes index ≡ value (some (to_int (strtol token).value))
unfolding parse_parent
parse_parent-found bytes index s token lt read token_is =
    let early : index == 84 ≡ false = ground arith in rw early (rw read (rw token_is refl))

parse_stat-found :
    (bytes : ℕ → ℕ) (index : ℕ) (s token : List ℕ)
    → find_closing bytes 81 3 ≡ index
    → index < 84
    → read_string bytes (85 - (index + 3)) (index + 3) ≡ some s
    → strtok_blank s ≡ some token
    → parse_stat bytes ≡ value (some (to_int (strtol token).value))
unfolding parse_stat
parse_stat-found bytes index s token closing lt read token_is =
    ap (parse_parent bytes) closing ∙ parse_parent-found bytes index s token lt read token_is

-- The array for a name and digits that fit, with what is left of the rest.
module _ (name digits left : List ℕ) (state : ℕ) where
  abbrev read : List ℕ
  read = b' ' ∷ (digits ++ left)

  abbrev before : List ℕ
  before = name ++ b')' ∷ b' ' ∷ state ∷ []

  abbrev array : List ℕ
  array = before ++ (read ++ 0 ∷ [])

  module _ (u : ℕ → ℕ) where
    abbrev bytes : ℕ → ℕ
    bytes i = get_or array i (u i)

    parse_array :
        HasNoEnd name
        → 3 ≤ length name
        → length name + 4 + length digits + length left ≤ 84
        → Avoids 0 digits
        → Avoids b' ' digits
        → starts_with_digit digits ≡ true
        → Avoids 0 left
        → get_or left 0 b' ' ≡ b' '
        → parse_stat bytes ≡ value (some (to_int (strtol digits).value))
    parse_array no_end long short digits_end digits_blank digit left_end blank =
        parse_stat-found bytes (length name) read digits
          (find_closing-found bytes (length name) 81 3 no_earlier (at 0 _ (omega arith))
            (at 1 _ refl) long (omega (arith, short)))
          (omega (arith, short))
          (read_string-Spells bytes read _ (length name + 3)
            (append-Spells u before read [] (length name + 3)
              (omega (arith, length-append name (b')' ∷ b' ' ∷ state ∷ []))))
            ((λ e. omega (arith, e)), Avoids-append 0 digits left digits_end left_end)
            (omega (arith, short, length-append digits left)))
          (strtok_blank-append digits left digits_blank digit blank)
      where
        next : (i : ℕ) → suc i ≡ i + 1
        next i = omega arith

        from_name : array ≡ name ++ b')' ∷ b' ' ∷ state ∷ (read ++ 0 ∷ [])
        from_name = append_assoc name (b')' ∷ b' ' ∷ state ∷ []) (read ++ 0 ∷ [])

        at :
            (k i : ℕ)
            → length name + k ≡ i
            → bytes i ≡ get_or (b')' ∷ b' ' ∷ state ∷ (read ++ 0 ∷ [])) k (u i)
        at k i e = ap (λ l. get_or l i (u i)) from_name ∙ get_or-append name _ k i _ e

        no_earlier : (i : ℕ) → 3 ≤ i → i < length name → bytes i ≡ b')' → bytes (i + 1) ≢ b' '
        no_earlier i lower upper p q =
            not_ended name (b' ' ∷ state ∷ (read ++ 0 ∷ [])) i (u i) (u (i + 1)) no_end upper
              (ap (λ l. get_or l i (u i)) (sym from_name) ∙ p)
              (ap (λ n. get_or (name ++ b')' ∷ b' ' ∷ state ∷ (read ++ 0 ∷ [])) n (u (i + 1)))
                  (next i)
                ∙ ap (λ l. get_or l (i + 1) (u (i + 1))) (sym from_name)
                ∙ q)

blank_first : (k : ℕ) (rest : List ℕ) → get_or (take k (b' ' ∷ rest)) 0 b' ' ≡ b' '
blank_first zero rest = refl
blank_first (suc k) rest = refl

module _ (id : ℕ) (comm : List ℕ) (state parent : ℕ) (rest : List ℕ) where
  abbrev id_and_comm : List ℕ
  id_and_comm = print_int (pos id) ++ b' ' ∷ b'(' ∷ comm

  -- What stays of the rest in the array.
  abbrev kept : List ℕ
  kept = take (80 - length id_and_comm - length (print_int (pos parent))) (b' ' ∷ rest)

  array_is :
      length id_and_comm + 4 + length (print_int (pos parent)) ≤ 84
      → take 84 (stat_line id comm state parent rest) ++ 0 ∷ []
        ≡ array id_and_comm (print_int (pos parent)) kept state
  array_is fits =
      ap (λ l. l ++ 0 ∷ [])
        (take-append 84 (suc (suc (suc (suc (80 - length id_and_comm))))) id_and_comm _
            (omega (arith, fits))
          ∙ ap (λ l. id_and_comm ++ b')' ∷ b' ' ∷ state ∷ b' ' ∷ l)
              (take-append (80 - length id_and_comm) _ (print_int (pos parent)) (b' ' ∷ rest)
                (omega (arith, fits))))
      ∙ append_assoc id_and_comm _ (0 ∷ [])
      ∙ sym (append_assoc id_and_comm (b')' ∷ b' ' ∷ state ∷ []) _)

not_empty : (s : List ℕ) → starts_with_digit s ≡ true → 1 ≤ length s
unfolding starts_with_digit
not_empty [] d = absurd (false≢true d)
not_empty (c ∷ cs) d = omega arith

-- Of a line in the kernel's format, whatever the memory held before: with ids of at most seven digits
-- and a name of at most 64 bytes that has no ") " in it, and without a 0 in the rest, what is read
-- is the id of the parent.
pub parse_stat-stat_line :
    (uninitialised : ℕ → ℕ) (id : ℕ) (comm : List ℕ) (state parent : ℕ) (rest : List ℕ)
    → id < 10 ^ 7
    → parent < 10 ^ 7
    → length comm ≤ 64
    → HasNoEnd comm
    → Avoids 0 rest
    → parse_stat (file_contents uninitialised (stat_line id comm state parent rest))
      ≡ value (some (pos parent))
unfolding file_contents
parse_stat-stat_line u id comm state parent rest id_fits parent_fits comm_fits no_end no_zero =
    ap (λ l. parse_stat (λ i. get_or l i (u i))) (array_is id comm state parent rest fits)
    ∙ parse_array (id_and_comm id comm state parent rest) (print_int (pos parent))
        (kept id comm state parent rest) state u
        (HasNoEnd-append (print_int (pos id)) _ (print_int-Avoids _ id (inl (omega arith)))
          ((λ e. absurd (omega (arith, e))), ((λ e. absurd (omega (arith, e))), no_end)))
        long
        (omega (
          arith,
          fits,
          length-take
              (80
                - length (id_and_comm id comm state parent rest)
                - length (print_int (pos parent)))
              (b' ' ∷ rest),
        ))
        (print_int-Avoids 0 parent (inl (omega arith)))
        (print_int-Avoids b' ' parent (inl (omega arith))) (starts_with_digit-print_int parent)
        (Avoids-take 0 _ (b' ' ∷ rest) ((λ e. omega (arith, e)), no_zero)) (blank_first _ rest)
    ∙ ap (λ r. value (some r)) (to_int-strtol-print_int parent (omega (arith, parent_fits)))
  where
    fits : length (id_and_comm id comm state parent rest) + 4 + length (print_int (pos parent)) ≤ 84
    fits = omega (
      arith,
      comm_fits,
      length-print_int 6 id id_fits,
      length-print_int 6 parent parent_fits,
      length-append (print_int (pos id)) (b' ' ∷ b'(' ∷ comm),
    )

    long : 3 ≤ length (id_and_comm id comm state parent rest)
    long = omega (
      arith,
      not_empty (print_int (pos id)) (starts_with_digit-print_int id),
      length-append (print_int (pos id)) (b' ' ∷ b'(' ∷ comm),
    )
