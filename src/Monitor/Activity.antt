-- ===== src/Monitor/Activity.antt =====
-- Pausing and resuming by the user's activity (main.c).
pub mod Tracking
pub mod Decision
pub mod Callbacks
pub mod Quiet
use runwhenidle.Prelude.{ℕ, ◌-◌, Bool, true, false, not, Option, none, some, [], ◌∷◌, leb, ltb}
use runwhenidle.Prelude.Int.{ℤ, pos, ◌-ℤ◌, ltb_ℤ}
use runwhenidle.System.{
  Os, Timespec, clock_gettime, Arg, Prog, ◌>>=◌, ◌>>◌, pure, ask, gets, modify, when, branch,
  printf, fprintf_stderr,
}
use runwhenidle.Process.Signals.{pause_command_recursively, resume_command_recursively}
use runwhenidle.Monitor.Time.{get_elapsed_time_ms, to_long_long}

abbrev pub polling_interval_ms : ℕ
polling_interval_ms = 1000

module _ (os : Os) where
  unfoldable pub resume_paused_command_on_user_idle : Prog (Unit {0})
  resume_paused_command_on_user_idle = do
    when (λ s. not s.quiet) (printf "Lack of user activity detected. " [])
    pid ← gets (λ s. s.pid)
    resume_command_recursively os pid
    modify (λ g. record g { command_paused = false })

  pub pause_running_command_on_user_activity : Prog (Unit {0})
  pause_running_command_on_user_activity = do
    pid ← gets (λ s. s.pid)
    pause_command_recursively os pid
    when (λ s. s.debug) (fprintf_stderr "Command paused\n" [])
    modify (λ g. record g { command_paused = true })

  -- The callbacks of the Wayland idle notification.
  pub wayland_idle_notification_idled : Prog (Unit {0})
  wayland_idle_notification_idled =
      when (λ s. s.monitoring_started)
        (do
          when (λ s. s.debug) (fprintf_stderr "Wayland idle: idled()\n" [])
          branch (λ s. s.command_paused) resume_paused_command_on_user_idle
              (when (λ s. s.debug)
                (fprintf_stderr "Command is not paused, not doing anything\n" [])))

  pub wayland_idle_notification_resumed : Prog (Unit {0})
  wayland_idle_notification_resumed =
      when (λ s. s.monitoring_started)
        (do
          when (λ s. s.debug) (fprintf_stderr "Wayland idle: resumed()\n" [])
          when (λ s. not s.command_paused) pause_running_command_on_user_activity)

  -- The first branch of `pause_or_resume_command_depending_on_user_activity`.
  unfoldable pub on_idle_user : ℕ → ℤ → ℕ → Prog ℤ
  on_idle_user timeout sleep_time_ms idle = do
    when (λ s. s.debug)
        (fprintf_stderr "Idle time: %lums, idle timeout: %lums, user is inactive\n"
          (Arg.nat idle ∷ Arg.nat timeout ∷ []))
    branch (λ s. s.command_paused)
        (do
          when (λ s. s.verbose)
              (fprintf_stderr "Idle time: %lums, idle timeout: %lums, resuming command\n"
                (Arg.nat idle ∷ Arg.nat timeout ∷ []))
          resume_paused_command_on_user_idle
          pure (pos polling_interval_ms))
        (pure sleep_time_ms)

  -- `time_when_starting_to_pause`, where the command is paused in this call.
  pause_if_running : ℕ → Prog (Option Timespec)
  pause_if_running idle =
      branch (λ s. not s.command_paused)
        (do
          start ← ask os.clock_gettime (λ _. clock_gettime)
          when (λ s. s.verbose) (fprintf_stderr "Idle time: %lums.\n" (Arg.nat idle ∷ []))
          pause_running_command_on_user_activity
          pure (some start))
        (pure none)

  less_pausing_time : Option Timespec → ℤ → Prog ℤ
  less_pausing_time none target = pure target
  less_pausing_time (some start) target = do
    when (λ s. s.debug) (fprintf_stderr "Command was paused this iteration\n" [])
    now ← ask os.clock_gettime (λ _. clock_gettime)
    when (λ s. s.debug)
        (fprintf_stderr
          "Target sleep time before taking into account time it took to pause: %lldms, time it took to pause: %lldms\n"
          (Arg.num target ∷ Arg.num (get_elapsed_time_ms start now) ∷ []))
    pure (target -ℤ get_elapsed_time_ms start now)

  at_least_polling_interval : ℤ → Prog ℤ
  at_least_polling_interval target =
      branch (λ _. ltb_ℤ target (pos polling_interval_ms))
        (do
          when (λ s. s.debug)
              (fprintf_stderr
                "Target sleep time %lldms is less than polling interval %lldms, resetting it to polling interval\n"
                (Arg.num target ∷ Arg.nat polling_interval_ms ∷ []))
          pure (pos polling_interval_ms))
        (pure target)

  -- The other branch.
  pub on_active_user : ℕ → ℕ → Prog ℤ
  on_active_user timeout idle = do
    paused_now ← pause_if_running idle
    when (λ s. s.debug)
        (fprintf_stderr "Target sleep time: %llums\n"
          (Arg.num (to_long_long (timeout - idle)) ∷ []))
    target ← less_pausing_time paused_now (to_long_long (timeout - idle))
    sleep_time_ms ← at_least_polling_interval target
    when (λ s. s.verbose)
        (fprintf_stderr
          "Polling every second is temporarily disabled due to user activity, idle time: %lums, next activity check scheduled in %lldms\n"
          (Arg.nat idle ∷ Arg.num sleep_time_ms ∷ []))
    pure sleep_time_ms

  unfoldable pub pause_or_resume_command_depending_on_user_activity : ℤ → ℕ → Prog ℤ
  pause_or_resume_command_depending_on_user_activity sleep_time_ms idle = do
    timeout ← gets (λ s. s.user_idle_timeout_ms)
    branch (λ _. leb timeout idle) (on_idle_user timeout sleep_time_ms idle)
        (on_active_user timeout idle)
