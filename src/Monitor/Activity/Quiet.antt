-- ===== src/Monitor/Activity/Quiet.antt =====
-- Pausing and resuming makes no call of the Wayland library.
use runwhenidle.System.{Os, Mute, mute_rules}
use runwhenidle.Process.Signals.Quiet.{pause_recursively-Mute, resume_recursively-Mute}
use runwhenidle.Monitor.Activity.{
  resume_paused_command_on_user_idle, pause_running_command_on_user_activity,
  wayland_idle_notification_idled, wayland_idle_notification_resumed,
}

module _ (os : Os) where
  resume_paused-Mute : Mute (resume_paused_command_on_user_idle os)
  unfolding resume_paused_command_on_user_idle
  resume_paused-Mute = search (mute_rules, resume_recursively-Mute) depth 40

  pub pause_running-Mute : Mute (pause_running_command_on_user_activity os)
  unfolding pause_running_command_on_user_activity
  pause_running-Mute = search (mute_rules, pause_recursively-Mute) depth 40

  pub idled-Mute : Mute (wayland_idle_notification_idled os)
  unfolding wayland_idle_notification_idled
  idled-Mute = search (mute_rules, resume_paused-Mute) depth 40

  pub resumed-Mute : Mute (wayland_idle_notification_resumed os)
  unfolding wayland_idle_notification_resumed
  resumed-Mute = search (mute_rules, pause_running-Mute) depth 40
