-- ===== src/Process/Table.antt =====
-- `get_child_processes` (process_handling.c): the first stage reads /proc into a growing array.
pub mod Snapshot
pub mod Quiet
use runwhenidle.Prelude.{
  ℕ, ◌+◌, ◌*◌, Bool, not, ◌&&◌, Option, none, some, List, [], ◌∷◌, ◌++◌, ltb, length, ◌==◌,
}
use runwhenidle.Prelude.Int.{ℤ, pos, ◌==ℤ◌}
use runwhenidle.Libc.Strtol.{sscanf_int}
use runwhenidle.System.{
  Os, Dirent, scan_proc, allocate, Arg, Prog, ◌>>=◌, ◌>>◌, pure, ask, gets, lift, when, branch,
  exit, crash, fprintf_error, fprintf_stderr,
}
use runwhenidle.Process.Stat.{read_parent_process_id}
use runwhenidle.Process.Descendants.{ProcessInfo, descendants}

abbrev pub number_of_processes_initially_allocated : ℕ
number_of_processes_initially_allocated = 4096

module _ (os : Os) where
  -- The array is doubled where it is full.
  unfoldable pub grow : ℕ → ℕ → Prog ℕ
  grow total allocated =
      branch (λ _. total == allocated)
        (do
          allowed ← ask (λ h. os.allocates h (allocated * 2)) (λ _. allocate (allocated * 2))
          branch (λ _. allowed) (pure (allocated * 2))
              (do
                fprintf_stderr "Failed to allocate memory while reading processes list" []
                exit 1))
        (pure allocated)

  unfoldable pub entry_of : ℤ → ℤ → Prog (Option ProcessInfo)
  entry_of process_id parent_process_id =
      branch (λ _. parent_process_id ==ℤ pos 0)
        (do
          when (λ s. s.debug)
              (fprintf_error os "Failed to read parent process id for %d\n"
                (Arg.num process_id ∷ []))
          pure none)
        (pure (some (record { process_id = process_id; parent_process_id = parent_process_id })))

  unfoldable pub read_numbered : Option ℤ → Prog (Option ProcessInfo)
  read_numbered none = pure none
  read_numbered (some process_id) = do
    parent_process_id ← read_parent_process_id os process_id
    entry_of process_id parent_process_id

  -- What one entry of /proc adds; `none` where the loop goes on with the next one.
  unfoldable pub read_entry : Dirent → Prog (Option ProcessInfo)
  read_entry entry =
      branch (λ _. not entry.is_directory) (pure none) (read_numbered (sscanf_int entry.d_name))

  -- A write at `all_processes[total_processes]`.
  unfoldable pub store : Bool → ℕ → List ProcessInfo → Option ProcessInfo → Prog (List ProcessInfo)
  store not_null allocated all none = pure all
  store not_null allocated all (some p) =
      branch (λ _. not_null && ltb (length all) allocated) (pure (all ++ p ∷ [])) crash

  -- `not_null` is whether the first malloc gave an array: its result is not tested.
  unfoldable pub read_entries : Bool → List Dirent → ℕ → List ProcessInfo → Prog (List ProcessInfo)
  read_entries not_null [] allocated all = pure all
  read_entries not_null (entry ∷ entries) allocated all = do
    allocated' ← grow (length all) allocated
    found ← read_entry entry
    all' ← store not_null allocated' all found
    read_entries not_null entries allocated' all'

  unfoldable pub abort_without_proc : {A : Type 0} → Prog A
  abort_without_proc = do fprintf_error os "Could not open /proc directory" []; exit 1

  unfoldable pub read_directory : Option (List Dirent) → Prog (List ProcessInfo)
  read_directory none = abort_without_proc
  read_directory (some entries) = do
    allowed ←
        ask (λ h. os.allocates h number_of_processes_initially_allocated)
          (λ _. allocate number_of_processes_initially_allocated)
    all ← read_entries allowed entries number_of_processes_initially_allocated []
    when (λ s. s.debug)
        (fprintf_stderr "Read %d processes from /proc\n" (Arg.nat (length all) ∷ []))
    pure all

  unfoldable pub read_all_processes : Prog (List ProcessInfo)
  read_all_processes = do entries ← ask os.read_proc (λ _. scan_proc); read_directory entries

  find_descendants : ℤ → List ProcessInfo → Prog (List ProcessInfo)
  find_descendants initial_parent_process_id all = do
    allowed ← ask (λ h. os.allocates h (length all)) (λ _. allocate (length all))
    branch (λ _. allowed) (pure tt) (do fprintf_stderr "Memory allocation failed" []; exit 1)
    garbage ← gets (λ s. os.uninitialised_ids s.trace)
    found ← lift (descendants garbage all initial_parent_process_id)
    -- `known_descendants` counts the marker behind the last one too
    when (λ s. s.debug)
        (fprintf_stderr "%d descendants found for the process\n" (Arg.nat (length found + 1) ∷ []))
    pure found

  pub get_child_processes : ℤ → Prog (List ProcessInfo)
  get_child_processes initial_parent_process_id = do
    all ← read_all_processes
    find_descendants initial_parent_process_id all
