-- ===== src/Descriptors/Quiet.antt =====
-- Timers and descriptors make no call of the Wayland library.
use runwhenidle.Prelude.{ℕ, String, Option, none, some}
use runwhenidle.Prelude.Int.{ℤ}
use runwhenidle.System.{
  Os, Timespec, TimerRead, bytes_read, read_failed, Mute, Mute-forever, mute_rules,
}
use runwhenidle.Descriptors.{
  create_timer, create_refused_timer, create_one_shot_timer_file_descriptor_after_ms,
  create_periodic_timer_file_descriptor_every_ms, report_close, close_file_descriptor_if_open,
  consumed, read_round, consume_timer_file_descriptor_checked,
}

module _ (os : Os) where
  create_timer-Mute : (value interval : Timespec) → Mute (create_timer os value interval)
  unfolding create_timer
  create_timer-Mute value interval = search mute_rules depth 60

  pub one_shot-Mute : (ms : ℕ) → Mute (create_one_shot_timer_file_descriptor_after_ms os ms)
  unfolding create_one_shot_timer_file_descriptor_after_ms
  one_shot-Mute ms = search create_timer-Mute

  pub periodic-Mute : (ms : ℕ) → Mute (create_periodic_timer_file_descriptor_every_ms os ms)
  unfolding create_periodic_timer_file_descriptor_every_ms
  periodic-Mute ms = search create_timer-Mute

  pub refused-Mute : Mute (create_refused_timer os)
  unfolding create_refused_timer
  refused-Mute = search mute_rules depth 40

  report_close-Mute :
      (fd : ℤ) (description : String) (failed : Option ℕ)
      → Mute (report_close os fd description failed)
  unfolding report_close
  report_close-Mute fd description none = search mute_rules
  report_close-Mute fd description (some errno) = search mute_rules

  pub close-Mute :
      (fd : ℤ) (description : String) → Mute (close_file_descriptor_if_open os fd description)
  unfolding close_file_descriptor_if_open
  close-Mute fd description = search (mute_rules, report_close-Mute) depth 40

  consumed-Mute : (description : String) (r : TimerRead) → Mute (consumed os description r)
  unfolding consumed
  consumed-Mute description (bytes_read n) = search mute_rules depth 40
  consumed-Mute description (read_failed errno) = search mute_rules depth 40

  read_round-Mute : (fd : ℤ) (x : Unit {0}) → Mute (read_round os fd x)
  unfolding read_round
  read_round-Mute fd x = search mute_rules depth 40

  pub consume-Mute :
      (rounds : ℕ) (fd : ℤ) (description : String)
      → Mute (consume_timer_file_descriptor_checked os rounds fd description)
  unfolding consume_timer_file_descriptor_checked
  consume-Mute rounds fd description =
      search (mute_rules, Mute-forever, read_round-Mute, consumed-Mute) depth 40
