-- ===== src/Process/Stat/Silence.antt =====
-- Reading a stat file that can be parsed sends no signal.
use runwhenidle.Prelude.{ℕ, ◌≡◌, refl, Option, none, some, List}
use runwhenidle.Prelude.Int.{ℤ}
use runwhenidle.System.{
  Os, Event, StatFile, not_opened, not_read, line, value, Silent, Silent-bind_ask, Silent-bind_gets,
  Silent-bind_lift, silent_rules,
}
use runwhenidle.Process.Stat.{
  file_contents, parse_stat, report_unparsed, parse_line, read_parent_process_id,
}

-- Every line that the kernel gives, in an array with any bytes behind it, is parsed.
abbrev pub StatParses : Os → Type 0
StatParses os =
    (h k : List Event) (p : ℤ) (l : List ℕ)
    → os.stat_file h p ≡ line l
    → (parent : Option ℤ) × (parse_stat (file_contents (os.uninitialised k) l) ≡ value parent)

module _ (os : Os) (parses : StatParses os) where
  report_unparsed-Silent : (p : ℤ) (parent : Option ℤ) → Silent (report_unparsed os p parent)
  unfolding report_unparsed
  report_unparsed-Silent p none = search silent_rules
  report_unparsed-Silent p (some parent) = search silent_rules

  parse_line-Silent :
      (p : ℤ) (h : List Event) (file : StatFile)
      → os.stat_file h p ≡ file
      → Silent (parse_line os p file)
  unfolding parse_line
  parse_line-Silent p h (not_opened errno) e = search silent_rules
  parse_line-Silent p h not_read e = search silent_rules
  parse_line-Silent p h (line l) e = Silent-bind_gets _ _ λ s.
      let (parent, parsed) = parses h s.trace p l e in
      Silent-bind_lift _ _ parent parsed (report_unparsed-Silent p parent)

  pub read_parent-Silent : (p : ℤ) → Silent (read_parent_process_id os p)
  unfolding read_parent_process_id
  read_parent-Silent p =
      Silent-bind_ask _ _ _ (λ a tr. refl) (λ h. parse_line-Silent p h (os.stat_file h p) refl)
