-- ===== src/Arguments/Remaining.antt =====
-- `read_remaining_arguments_as_char`: the arguments after the options, as one string.
pub mod Joined
use runwhenidle.Prelude.{ℕ, suc, ◌+◌, ◌==◌, List, [], ◌∷◌, ◌++◌, length}
use runwhenidle.System.{
  Os, allocate, Prog, ◌>>=◌, ◌>>◌, pure, exit, crash, ask, branch, fprintf_stderr,
}

-- The first loop: for each argument its length, and one byte for the separator.
unfoldable memory_to_be_allocated : List (List ℕ) → ℕ
memory_to_be_allocated [] = 0
memory_to_be_allocated (a ∷ rest) = length a + 1 + memory_to_be_allocated rest

-- The second loop: what it writes into the memory.
unfoldable fill : List (List ℕ) → List ℕ
fill [] = []
fill (a ∷ rest) = a ++ b' ' ∷ fill rest

-- The bytes before the last one, which becomes the null terminator.
unfoldable terminate_last : List ℕ → List ℕ
terminate_last [] = []
terminate_last (c ∷ []) = []
terminate_last (c ∷ d ∷ cs) = c ∷ terminate_last (d ∷ cs)

-- Where no argument is left, argv[optind] is NULL, and strdup of it undefined.
pub read_remaining_arguments_as_char : Os → List (List ℕ) → Prog (List ℕ)
unfolding memory_to_be_allocated fill terminate_last
read_remaining_arguments_as_char os [] = crash
read_remaining_arguments_as_char os (a ∷ rest) = do
  allowed ←
      ask (λ h. os.allocates h (memory_to_be_allocated (a ∷ rest)))
        (λ _. allocate (memory_to_be_allocated (a ∷ rest)))
  branch (λ _. allowed)
      (branch (λ _. length (fill (a ∷ rest)) == memory_to_be_allocated (a ∷ rest))
        (pure (terminate_last (fill (a ∷ rest)))) crash)
      (do fprintf_stderr "Failed to allocate memory while parsing command to be ran.\n" []; exit 1)
