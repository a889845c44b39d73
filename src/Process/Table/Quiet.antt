-- ===== src/Process/Table/Quiet.antt =====
-- Reading /proc makes no call of the Wayland library.
use runwhenidle.Prelude.{ℕ, Bool, Option, none, some, List, [], ◌∷◌}
use runwhenidle.Prelude.Int.{ℤ}
use runwhenidle.System.{Os, Dirent, StatFile, not_opened, not_read, line, mute_rules}
use runwhenidle.System.{Mute}
use runwhenidle.Process.Stat.{report_unparsed, parse_line, read_parent_process_id}
use runwhenidle.Process.Descendants.{ProcessInfo}
use runwhenidle.Process.Table.{
  grow, entry_of, read_numbered, read_entry, store, read_entries, abort_without_proc,
  read_directory, read_all_processes, find_descendants, get_child_processes,
}

module _ (os : Os) where
  report_unparsed-Mute : (p : ℤ) (parent : Option ℤ) → Mute (report_unparsed os p parent)
  unfolding report_unparsed
  report_unparsed-Mute p none = search mute_rules
  report_unparsed-Mute p (some parent) = search mute_rules

  parse_line-Mute : (p : ℤ) (file : StatFile) → Mute (parse_line os p file)
  unfolding parse_line
  parse_line-Mute p (not_opened errno) = search mute_rules
  parse_line-Mute p not_read = search mute_rules
  parse_line-Mute p (line l) = search (mute_rules, report_unparsed-Mute)

  read_parent-Mute : (p : ℤ) → Mute (read_parent_process_id os p)
  unfolding read_parent_process_id
  read_parent-Mute p = search (mute_rules, parse_line-Mute)

  grow-Mute : (total allocated : ℕ) → Mute (grow os total allocated)
  unfolding grow
  grow-Mute total allocated = search mute_rules depth 40

  entry_of-Mute : (p parent : ℤ) → Mute (entry_of os p parent)
  unfolding entry_of
  entry_of-Mute p parent = search mute_rules depth 40

  read_numbered-Mute : (p : Option ℤ) → Mute (read_numbered os p)
  unfolding read_numbered
  read_numbered-Mute none = search mute_rules
  read_numbered-Mute (some p) = search (mute_rules, read_parent-Mute, entry_of-Mute)

  read_entry-Mute : (e : Dirent) → Mute (read_entry os e)
  unfolding read_entry
  read_entry-Mute e = search (mute_rules, read_numbered-Mute)

  store-Mute :
      (not_null : Bool) (allocated : ℕ) (all : List ProcessInfo) (p : Option ProcessInfo)
      → Mute (store os not_null allocated all p)
  unfolding store
  store-Mute not_null allocated all none = search mute_rules
  store-Mute not_null allocated all (some p) = search mute_rules

  read_entries-Mute :
      (not_null : Bool) (entries : List Dirent) (allocated : ℕ) (all : List ProcessInfo)
      → Mute (read_entries os not_null entries allocated all)
  unfolding read_entries
  read_entries-Mute not_null [] allocated all = search mute_rules
  read_entries-Mute not_null (e ∷ es) allocated all =
      search (mute_rules, grow-Mute, read_entry-Mute, store-Mute, read_entries-Mute not_null es)

  read_directory-Mute : (entries : Option (List Dirent)) → Mute (read_directory os entries)
  unfolding read_directory abort_without_proc
  read_directory-Mute none = search mute_rules
  read_directory-Mute (some es) = search (mute_rules, read_entries-Mute) depth 40

  read_all-Mute : Mute (read_all_processes os)
  unfolding read_all_processes
  read_all-Mute = search (mute_rules, read_directory-Mute)

  find_descendants-Mute : (p : ℤ) (all : List ProcessInfo) → Mute (find_descendants os p all)
  unfolding find_descendants
  find_descendants-Mute p all = search mute_rules depth 60

  pub get_child_processes-Mute : (p : ℤ) → Mute (get_child_processes os p)
  unfolding get_child_processes
  get_child_processes-Mute p = search (mute_rules, read_all-Mute, find_descendants-Mute)
