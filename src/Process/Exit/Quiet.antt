-- ===== src/Process/Exit/Quiet.antt =====
-- The checks for the command's end make no call of the Wayland library.
use runwhenidle.Prelude.{ℕ, Option, none, some}
use runwhenidle.Prelude.Int.{ℤ}
use runwhenidle.System.{Os, Mute, mute_rules}
use runwhenidle.Process.Exit.{
  wait_for_pid_to_exit_synchronously, poll_finished, exit_finished, exit_if_pid_has_finished,
}

module _ (os : Os) where
  pub wait_synchronously-Mute : (pid : ℤ) → Mute (wait_for_pid_to_exit_synchronously os pid)
  unfolding wait_for_pid_to_exit_synchronously
  wait_synchronously-Mute pid = search mute_rules depth 40

  poll_finished-Mute : (pid : ℤ) → Mute (poll_finished os pid)
  unfolding poll_finished
  poll_finished-Mute pid = search mute_rules depth 40

  exit_finished-Mute : (pid : ℤ) (code : Option ℕ) → Mute (exit_finished os pid code)
  unfolding exit_finished
  exit_finished-Mute pid none = search mute_rules
  exit_finished-Mute pid (some code) = search mute_rules depth 60

  pub exit_if-Mute : (pid : ℤ) → Mute (exit_if_pid_has_finished os pid)
  unfolding exit_if_pid_has_finished
  exit_if-Mute pid = search (mute_rules, poll_finished-Mute, exit_finished-Mute) depth 40
