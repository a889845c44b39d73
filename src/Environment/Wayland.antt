-- ===== src/Environment/Wayland.antt =====
-- `find_best_wayland_socket_in_runtime_dir`.
pub mod Choice
pub mod Lowest
use runwhenidle.Prelude.{
  ℕ, ◌+◌, ◌-◌, ◌^◌, Bool, true, false, not, ◌&&◌, ◌||◌, Option, none, some, List, [], ◌∷◌, ◌++◌,
  length, take, drop, ltb, leb, ◌==◌, if◌then◌else◌,
}
use runwhenidle.Prelude.Int.{pos, pos_part, ltb_ℤ}
use runwhenidle.Libc.Strtol.{strtol, starts_with_digit}
use runwhenidle.Environment.Files.{Files, file_is_socket}

abbrev pub int_max : ℕ
int_max = 2 ^ 31 - 1

abbrev pub path_max : ℕ
path_max = 4096

-- strncmp(name, "wayland-", 8) == 0
pub starts_with : List ℕ → List ℕ → Bool
starts_with [] name = true
starts_with (c ∷ rest) [] = false
starts_with (c ∷ rest) (d ∷ name) = c == d && starts_with rest name

abbrev pub prefix : List ℕ
prefix = b'w' ∷ b'a' ∷ b'y' ∷ b'l' ∷ b'a' ∷ b'n' ∷ b'd' ∷ b'-' ∷ []

abbrev pub path_in : List ℕ → List ℕ → List ℕ
path_in runtime_dir name = runtime_dir ++ b'/' ∷ name

-- strcmp(a, b) < 0
pub strcmp_less : List ℕ → List ℕ → Bool
strcmp_less [] [] = false
strcmp_less [] (b ∷ rest) = true
strcmp_less (a ∷ rest) [] = false
strcmp_less (a ∷ rest) (b ∷ others) =
    let later = strcmp_less rest others in if ltb a b then true else if a == b then later else false

-- `current_socket_numeric_suffix_value`, with `none` for -1.
pub numeric_suffix : List ℕ → Option ℕ
numeric_suffix name =
    let suffix = drop 8 name in
    let parsed = strtol suffix in
    if starts_with_digit suffix
      && length parsed.end == 0
      && not parsed.out_of_range
      && not (ltb_ℤ parsed.value (pos 0))
      && not (ltb_ℤ (pos int_max) parsed.value)
    then some (pos_part parsed.value)
    else none

-- The best socket so far: `lowest_numeric_socket_suffix_found` and its name.
pub record Best : Type 0 where
  pub lowest : ℕ
  pub name : List ℕ

abbrev pub suffix_or_max : Option ℕ → ℕ
suffix_or_max none = int_max
suffix_or_max (some n) = n

abbrev pub better : Option Best → Option ℕ → List ℕ → Option Best
better none suffix name = some (record { lowest = suffix_or_max suffix; name = name })
better (some best) (some n) name =
    if best.lowest == int_max || ltb n best.lowest
    then some (record { lowest = n; name = name })
    else some best
better (some best) none name =
    if best.lowest == int_max && strcmp_less name best.name
    then some (record best { name = name })
    else some best

module _ (files : Files) (runtime_dir : List ℕ) where
  -- The tests before the suffix is read.
  pub is_candidate : List ℕ → Bool
  is_candidate name =
      starts_with prefix name
      && ltb (length (path_in runtime_dir name)) path_max
      && file_is_socket files (path_in runtime_dir name)

  -- The loop.
  pub best_of : Option Best → List (List ℕ) → Option Best
  unfolding is_candidate numeric_suffix
  best_of best [] = best
  best_of best (name ∷ rest) =
      best_of (if is_candidate name then better best (numeric_suffix name) name else best) rest

  -- The path and the name of the best socket, where they fit into arrays of these sizes.
  pub in_arrays : ℕ → ℕ → Option Best → Option (List ℕ × List ℕ)
  in_arrays path_size name_size none = none
  in_arrays path_size name_size (some best) =
      if ltb (length (path_in runtime_dir best.name)) path_size
        && (name_size == 0 || ltb (length best.name) name_size)
      then some (path_in runtime_dir best.name, best.name)
      else none

  -- `none` where it returns 0.
  pub find_best_wayland_socket_in_runtime_dir : ℕ → ℕ → Option (List ℕ × List ℕ)
  find_best_wayland_socket_in_runtime_dir path_size name_size = elim (files.names runtime_dir) [
    | none ↦ none
    | some names ↦ in_arrays path_size name_size (best_of none names)
  ]
