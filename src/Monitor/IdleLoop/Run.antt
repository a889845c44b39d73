-- ===== src/Monitor/IdleLoop/Run.antt =====
-- The whole of `run_wayland_idle_event_loop` (main.c): its descriptors, the loop, and the clean-up.
pub mod Outcome
pub mod Ending
pub mod Orderly
use runwhenidle.Prelude.{
  ℕ, suc, String, Bool, true, false, not, ◌&&◌, ◌||◌, Option, none, some, List, [], ◌∷◌, ◌++◌, ◌==◌,
  if◌then◌else◌,
}
use runwhenidle.Prelude.Int.{ℤ, pos, negsuc, ltb_ℤ, ◌==ℤ◌}
use runwhenidle.System.{
  Os, Globals, State, Pollfd, Revents, Polled, poll_failed, polled, poll_many, RegistryCallback,
  Callback, of_registry, idled, resumed, Dispatched, Arg, Event, Prog, Round, again, done, forever,
  ◌>>=◌, ◌>>◌, pure, crash, ask, gets, modify, emit, branch, when, fprintf_stderr, fprintf_error,
}
use runwhenidle.Process.Exit.{exit_if_pid_has_finished}
use runwhenidle.Process.Starting.{open_pid_file_descriptor_for_process}
use runwhenidle.Monitor.Signals.{
  process_signalfd, handle_interruption, interrupted,
  resume_and_wait_for_pid_to_exit_checking_for_signals,
}
use runwhenidle.Monitor.Activity.{
  polling_interval_ms, pause_running_command_on_user_activity, wayland_idle_notification_idled,
  wayland_idle_notification_resumed,
}
use runwhenidle.Monitor.X11.{check_finished}
use runwhenidle.Descriptors.{
  eintr, eagain, create_one_shot_timer_file_descriptor_after_ms, create_refused_timer,
  create_periodic_timer_file_descriptor_every_ms, close_file_descriptor_if_open,
  consume_timer_file_descriptor_checked,
}
use runwhenidle.Wayland.{registry_callback, call_display, start_wayland_idle_notification_object}
use runwhenidle.Monitor.IdleLoop.Locals.{LoopLocals, LoopExit, cleanup, lost}
use runwhenidle.Monitor.IdleLoop.Round.{idle_loop_round}

module _ (os : Os) where
  abbrev start_timer : ℤ → Prog ℤ
  start_timer (pos delay_ms) = create_one_shot_timer_file_descriptor_after_ms os delay_ms
  start_timer (negsuc n) = create_refused_timer os

  pub close_descriptors : LoopLocals → Prog (Unit {0})
  close_descriptors l = do
    start_monitor ←
        close_file_descriptor_if_open os l.start_monitor_timer_file_descriptor "start-monitor timer"
    process_exit ←
        close_file_descriptor_if_open os l.process_exit_wait_file_descriptor "process-exit"
    fallback ←
        close_file_descriptor_if_open os l.fallback_check_timer_file_descriptor
          "external-pid fallback timer"
    pure tt

  -- LoopExit by the label for the clean-up, and by the end of the loop.
  leave_by_cleanup : LoopLocals → ℤ → Prog ℤ
  leave_by_cleanup l result = do close_descriptors l; pure result

  leave_lost_connection : ℕ → LoopLocals → Prog ℤ
  leave_lost_connection rounds l = do
    close_descriptors l
    when (λ s. s.verbose) (fprintf_stderr "Wayland connection lost or loop finished.\n" [])
    exit_code ← resume_and_wait_for_pid_to_exit_checking_for_signals os rounds
    pure (pos exit_code)

  pub leave_loop : ℕ → LoopLocals × LoopExit → Prog ℤ
  leave_loop rounds (l, cleanup result) = leave_by_cleanup l result
  leave_loop rounds (l, lost) = leave_lost_connection rounds l

  -- The rounds bound the loop and the wait for the command, the retries a read of a timer.
  run_loop : ℕ → ℕ → Option ℕ → LoopLocals → Prog ℤ
  run_loop rounds retries display l = do
    check_finished os
    when (λ s. s.debug) (fprintf_stderr "Wayland idle event loop started\n" [])
    left ← forever rounds (idle_loop_round os display retries) l
    leave_loop rounds left

  -- The check for the command's end by a timer, where it has no descriptor.
  with_fallback : ℕ → ℕ → Option ℕ → LoopLocals → Prog ℤ
  with_fallback rounds retries display l = do
    fallback ← create_periodic_timer_file_descriptor_every_ms os polling_interval_ms
    branch (λ _. fallback ==ℤ negsuc 0)
        (do
          timer_errno ← gets (λ s. os.errno s.trace)
          fprintf_error os
              "Failed to create periodic timer file descriptor for external pid fallback: %s\n"
              (Arg.error_text timer_errno ∷ [])
          leave_by_cleanup (record l { fallback_check_timer_file_descriptor = fallback })
              (negsuc 0))
        (run_loop rounds retries display
          (record l { fallback_check_timer_file_descriptor = fallback }))

  with_process_exit : ℕ → ℕ → Option ℕ → LoopLocals → ℤ → ℤ × ℕ → Prog ℤ
  with_process_exit rounds retries display l pid (descriptor, errno) =
      branch (λ _. descriptor ==ℤ negsuc 0)
        (do
          fprintf_error os
              "Failed to open file descriptor for pid %d: %s, falling back to a timer every %lldms for checking if process has exited\n"
              (Arg.num pid ∷ Arg.error_text errno ∷ Arg.nat polling_interval_ms ∷ [])
          with_fallback rounds retries display
              (record l { process_exit_wait_file_descriptor = descriptor }))
        (run_loop rounds retries display
          (record l { process_exit_wait_file_descriptor = descriptor }))

  with_display : ℕ → ℕ → Option ℕ → LoopLocals → Prog ℤ
  with_display rounds retries display l =
      branch (λ _. l.wayland_display_file_descriptor ==ℤ negsuc 0)
        (do
          fprintf_error os
              "Wayland idle event loop aborted: failed to get Wayland display file descriptor\n" []
          leave_by_cleanup l (negsuc 0))
        (do
          pid ← gets (λ s. s.pid)
          opened ← open_pid_file_descriptor_for_process os pid
          with_process_exit rounds retries display l pid opened)

  -- The locals before anything but the first timer has been opened.
  abbrev first_locals : ℤ → LoopLocals
  first_locals timer = record {
    wayland_flush_is_pending = false;
    wayland_display_file_descriptor = negsuc 0;
    start_monitor_timer_file_descriptor = timer;
    start_monitor_polled = timer;
    process_exit_wait_file_descriptor = negsuc 0;
    fallback_check_timer_file_descriptor = negsuc 0;
  }

  pub run_wayland_idle_event_loop : ℕ → ℕ → Option ℕ → Prog ℤ
  run_wayland_idle_event_loop rounds retries display = do
    delay_ms ← gets (λ s. s.start_monitor_after_ms)
    timer ← start_timer delay_ms
    branch (λ _. timer ==ℤ negsuc 0)
        (do
          saved_errno ← gets (λ s. os.errno s.trace)
          fprintf_error os
              "Wayland idle event loop aborted: failed to create a timer file descriptor: %s\n"
              (Arg.error_text saved_errno ∷ [])
          leave_by_cleanup (first_locals timer) (negsuc 0))
        (do
          descriptor ← call_display os.wayland.get_fd display
          with_display rounds retries display
              (record (first_locals timer) { wayland_display_file_descriptor = descriptor }))
