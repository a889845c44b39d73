-- ===== src/Environment/Files.antt =====
-- file_utils.c and string_utils.c, over what the kernel says of files.
use runwhenidle.Prelude.{ℕ, Bool, true, false, Option, none, some, List, [], ◌∷◌}

-- The kinds of a file that the program tells apart.
pub data FileKind : Type 0 where
  socket regular directory other : FileKind

pub record Files : Type 0 where
  -- the names that opendir and readdir give, in their order; `none` where opendir fails
  pub names : List ℕ → Option (List (List ℕ))
  -- `none` where stat fails
  pub stat : List ℕ → Option FileKind
  -- access with R_OK, and with R_OK | X_OK
  pub readable : List ℕ → Bool
  pub accessible : List ℕ → Bool

-- NULL counts as empty.
abbrev pub is_string_null_or_empty : Option (List ℕ) → Bool
is_string_null_or_empty none = true
is_string_null_or_empty (some []) = true
is_string_null_or_empty (some (c ∷ rest)) = false

module _ (files : Files) where
  unfoldable pub file_is_socket : List ℕ → Bool
  file_is_socket path = elim (files.stat path) [ some socket ↦ true | _ ↦ false ]

  pub file_is_readable_regular_file : List ℕ → Bool
  file_is_readable_regular_file path = elim (files.stat path) [
    | some regular ↦ files.readable path
    | _ ↦ false
  ]

  pub directory_exists_and_accessible : List ℕ → Bool
  directory_exists_and_accessible path = elim (files.stat path) [
    | some directory ↦ files.accessible path
    | _ ↦ false
  ]
