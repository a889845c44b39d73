-- ===== src/Process/Stat.antt =====
-- `read_parent_process_id` (process_handling.c): the parent's id in /proc/<pid>/stat.
pub mod Silence
pub mod Format
use runwhenidle.Prelude.{
  ℕ, zero, suc, ◌+◌, ◌-◌, not, ◌&&◌, ◌||◌, Option, none, some, List, [], ◌∷◌, ◌++◌, take, get_or,
  ◌==◌, if◌then◌else◌,
}
use runwhenidle.Prelude.Int.{ℤ, pos}
use runwhenidle.Libc.Strtol.{strtol, to_int}
use runwhenidle.Libc.Tokens.{strtok_blank, read_string}
use runwhenidle.System.{
  Os, StatFile, not_opened, not_read, line, open_stat, Arg, Outcome, value, crashed, Prog, ◌>>=◌,
  ◌>>◌, pure, ask, gets, lift, when, fprintf_error,
}

abbrev pub max_stat_file_read_length : ℕ
max_stat_file_read_length = 85

abbrev pub min_closing_parenthesis_position : ℕ
min_closing_parenthesis_position = 3

abbrev pub enoent : ℕ
enoent = 2

-- `file_contents` after `fgets`: at most 84 bytes of the line and a 0; the rest is not written.
unfoldable pub file_contents : (ℕ → ℕ) → List ℕ → ℕ → ℕ
file_contents uninitialised first_line i =
    get_or (take (max_stat_file_read_length - 1) first_line ++ 0 ∷ []) i (uninitialised i)

-- The loop that looks for ") ", with `rounds` left.
unfoldable pub find_closing : (ℕ → ℕ) → ℕ → ℕ → ℕ
find_closing bytes zero index = index
find_closing bytes (suc rounds) index =
    let rest = find_closing bytes rounds (index + 1) in
    if bytes index == b')' && bytes (index + 1) == b' ' then index else rest

-- What follows the loop. 0 stands for failure; a read past the array is undefined, and so is
-- `strtol` on the NULL of `strtok`.
unfoldable pub parse_parent : (ℕ → ℕ) → ℕ → Outcome (Option ℤ)
parse_parent bytes index =
    if index == max_stat_file_read_length - 1
    then value none
    else elim (read_string bytes (max_stat_file_read_length - (index + 3)) (index + 3)) [
      | none ↦ crashed
      | some s ↦ elim (strtok_blank s) [
        | none ↦ crashed
        | some token ↦ value (some (to_int (strtol token).value))
      ]
    ]

unfoldable pub parse_stat : (ℕ → ℕ) → Outcome (Option ℤ)
unfolding find_closing parse_parent
parse_stat bytes = parse_parent bytes (
    find_closing bytes (max_stat_file_read_length - 1 - min_closing_parenthesis_position)
      min_closing_parenthesis_position)

module _ (os : Os) where
  unfoldable pub report_unparsed : ℤ → Option ℤ → Prog ℤ
  report_unparsed process_id none = do
    fprintf_error os "Failed to parse %s: reached %d bytes and but did not find \") \".\n"
        (Arg.num process_id ∷ Arg.nat max_stat_file_read_length ∷ [])
    pure (pos 0)
  report_unparsed process_id (some parent) = pure parent

  unfoldable pub parse_line : ℤ → StatFile → Prog ℤ
  parse_line process_id (not_opened errno) = do
    when (λ s. (not s.quiet && not (errno == enoent)) || s.debug)
        (fprintf_error os "Failed to open %s for reading: %s\n"
          (Arg.num process_id ∷ Arg.error_text errno ∷ []))
    pure (pos 0)
  parse_line process_id not_read = do
    fprintf_error os "Failed to read from %s\n" (Arg.num process_id ∷ [])
    pure (pos 0)
  parse_line process_id (line first_line) = do
    bytes ← gets (λ s. file_contents (os.uninitialised s.trace) first_line)
    parent ← lift (parse_stat bytes)
    report_unparsed process_id parent

  unfoldable pub read_parent_process_id : ℤ → Prog ℤ
  unfolding parse_line report_unparsed
  read_parent_process_id process_id = do
    file ← ask (λ h. os.stat_file h process_id) (λ _. open_stat process_id)
    parse_line process_id file
