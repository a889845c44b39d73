-- ===== src/Monitor/X11.antt =====
-- The polling loop of `main` (main.c), which runs where Wayland is not available.
pub mod Polling
pub mod Rounds
use runwhenidle.Prelude.{ℕ, ◌-◌, ◌^◌, Bool, true, false, not, ◌&&◌, [], ◌∷◌}
use runwhenidle.Prelude.Int.{ℤ, pos, ltb_ℤ}
use runwhenidle.System.{
  Os, Timespec, clock_gettime, query_idle, x_free, close_display, close, Arg, Prog, Round, again,
  done, forever, ◌>>=◌, ◌>>◌, pure, crash, ask, gets, modify, emit, when, branch, fprintf_stderr,
}
use runwhenidle.Process.Exit.{exit_if_pid_has_finished}
use runwhenidle.Monitor.Time.{get_elapsed_time_ms, sleep_time_int}
use runwhenidle.Monitor.Signals.{handle_interruption, interrupted, sleep_for_ms_with_signalfd}
use runwhenidle.Monitor.Activity.{pause_or_resume_command_depending_on_user_activity}

abbrev pub idle_time_not_available_value : ℕ
idle_time_not_available_value = 2 ^ 64 - 1

-- The local variables of the loop.
pub record Locals : Type 0 where
  pub sleep_time_ms : ℤ
  pub user_idle_time_ms : ℕ
  pub time_when_command_started : Timespec

module _ (os : Os) where
  -- XScreenSaverQueryInfo is given the display and the structure to fill in, which is read after it;
  -- both are pointers that are NULL where opening the display or XScreenSaverAllocInfo has failed.
  unfoldable pub query_user_idle_time : Prog ℕ
  query_user_idle_time =
      branch (λ s. s.xscreensaver_is_available)
        (branch (λ s. s.x_display_open && s.xscreensaver_info_allocated)
          (ask os.query_idle (λ _. query_idle)) crash)
        (pure idle_time_not_available_value)

  unfoldable pub leave_after_interruption : Prog ℕ
  leave_after_interruption = do
    result ← handle_interruption os
    when (λ s. s.xscreensaver_is_available && s.xscreensaver_info_allocated) (emit x_free)
    when (λ s. s.x_display_open) (emit close_display)
    fd ← gets (λ s. s.signal_fd)
    emit (close fd)
    pure result

  unfoldable pub check_finished : Prog (Unit {0})
  check_finished = do pid ← gets (λ s. s.pid); exit_if_pid_has_finished os pid

  -- Monitoring starts once the time for it has passed.
  unfoldable pub start_monitoring_if_due : Timespec → Prog (Unit {0})
  start_monitoring_if_due started =
      when (λ s. not s.monitoring_started)
        (do
          current ← ask os.clock_gettime (λ _. clock_gettime)
          when (λ s. s.debug)
              (fprintf_stderr "%lldms elapsed since command started\n"
                (Arg.num (get_elapsed_time_ms started current) ∷ []))
          when (λ s. not (ltb_ℤ (get_elapsed_time_ms started current) s.start_monitor_after_ms))
              (modify (λ g. record g { monitoring_started = true })))

  unfoldable pub poll_round : Locals → Prog (Round Locals ℕ)
  poll_round l =
      branch interrupted (do result ← leave_after_interruption; pure (done result))
        (do
          when (λ s. s.sigchld_received)
              (do modify (λ g. record g { sigchld_received = false }); check_finished)
          start_monitoring_if_due l.time_when_command_started
          idle ← branch (λ s. s.monitoring_started) query_user_idle_time (pure l.user_idle_time_ms)
          check_finished
          sleep ←
              branch (λ s. s.monitoring_started)
                (pause_or_resume_command_depending_on_user_activity os l.sleep_time_ms idle)
                (pure l.sleep_time_ms)
          when (λ s. s.debug) (fprintf_stderr "Sleeping for %lldms\n" (Arg.num sleep ∷ []))
          sleep_for_ms_with_signalfd os (sleep_time_int sleep)
          pure (again (record l { sleep_time_ms = sleep; user_idle_time_ms = idle })))

  -- From the moment that the command has started, for so many rounds.
  pub poll_loop : ℕ → Prog ℕ
  poll_loop rounds = do
    started ← ask os.clock_gettime (λ _. clock_gettime)
    when (λ s. s.verbose)
        (branch (λ s. s.xscreensaver_is_available)
          (fprintf_stderr "Starting to monitor user activity (X11 polling)\n" [])
          (fprintf_stderr "Starting to monitor the process in fallback mode\n" []))
    forever rounds poll_round (record {
      sleep_time_ms = pos 100;
      user_idle_time_ms = 0;
      time_when_command_started = started;
    })
