-- ===== src/Monitor/IdleLoop/Round.antt =====
-- A round of the event loop (main.c) up to poll(), and what becomes of its answer.
pub mod Kept
pub mod Orderly
use runwhenidle.Prelude.{
  ℕ, suc, String, Bool, true, false, not, ◌&&◌, ◌||◌, Option, none, some, List, [], ◌∷◌, ◌++◌, ◌==◌,
  if◌then◌else◌,
}
use runwhenidle.Prelude.Int.{ℤ, pos, negsuc, ltb_ℤ, ◌==ℤ◌}
use runwhenidle.System.{
  Os, Globals, State, Pollfd, Revents, Polled, poll_failed, polled, poll_many, RegistryCallback,
  Callback, of_registry, idled, resumed, Dispatched, Arg, Event, Prog, Round, again, done, forever,
  ◌>>=◌, ◌>>◌, pure, crash, ask, gets, modify, emit, branch, when, fprintf_stderr, fprintf_error,
}
use runwhenidle.Process.Exit.{exit_if_pid_has_finished}
use runwhenidle.Process.Starting.{open_pid_file_descriptor_for_process}
use runwhenidle.Monitor.Signals.{
  process_signalfd, handle_interruption, interrupted,
  resume_and_wait_for_pid_to_exit_checking_for_signals,
}
use runwhenidle.Monitor.Activity.{
  polling_interval_ms, pause_running_command_on_user_activity, wayland_idle_notification_idled,
  wayland_idle_notification_resumed,
}
use runwhenidle.Monitor.X11.{check_finished}
use runwhenidle.Descriptors.{
  eintr, eagain, create_one_shot_timer_file_descriptor_after_ms, create_refused_timer,
  create_periodic_timer_file_descriptor_every_ms, close_file_descriptor_if_open,
  consume_timer_file_descriptor_checked,
}
use runwhenidle.Wayland.{registry_callback, call_display, start_wayland_idle_notification_object}
use runwhenidle.Monitor.IdleLoop.Locals.{
  LoopLocals, LoopExit, cleanup, lost, Next, poll_file_descriptors, poll_result, leave_lost,
  leave_invalid,
}
use runwhenidle.Monitor.IdleLoop.Stages.{dispatch_by, start_monitor_stage}

module _ (os : Os) (display : Option ℕ) (retries : ℕ) where
  after_writable_flush : LoopLocals → (ℕ → Revents) → Option ℕ → Prog Next
  after_writable_flush l revents none =
      start_monitor_stage os display retries (record l { wayland_flush_is_pending = false }) revents
  after_writable_flush l revents (some errno) =
      branch (λ _. errno == eagain)
        (start_monitor_stage os display retries (record l { wayland_flush_is_pending = true })
          revents)
        (branch (λ _. errno == eintr) (start_monitor_stage os display retries l revents)
          (leave_lost os "Wayland display flush failed: %s\n" errno l))

  pub connection_stage : LoopLocals → (ℕ → Revents) → Prog Next
  connection_stage l revents =
      branch (λ _. (revents 0).pollnval)
        (leave_invalid os "Wayland display file descriptor became invalid\n" l)
        (branch (λ _. (revents 0).pollhup || (revents 0).pollerr)
          (do
            fprintf_error os
                "Wayland connection closed, user will be considered idle to allow the command to finish.\n"
                []
            pure (done (l, lost)))
          (branch (λ _. (revents 0).pollout)
            (do
              failed ← call_display os.wayland.flush display
              after_writable_flush l revents failed)
            (start_monitor_stage os display retries l revents)))

  unfoldable pub after_poll : LoopLocals → Polled → Prog Next
  after_poll l (poll_failed errno) =
      branch (λ _. errno == eintr) (pure (again l))
        (do
          fprintf_error os "poll() failed: %s\n" (Arg.error_text errno ∷ [])
          pure (done (l, cleanup (negsuc 0))))
  after_poll l (polled n revents) = do
    when (λ _. (revents 2).pollin) (process_signalfd os)
    connection_stage l revents

  unfoldable pub poll_stage : LoopLocals → Prog Next
  poll_stage l = do
    descriptors ← gets (λ s. poll_file_descriptors s.signal_fd l)
    answer ← ask (λ h. os.poll_many h descriptors) (λ _. poll_many descriptors)
    when (λ s. s.debug) (fprintf_stderr "poll() returned %d\n" (Arg.num (poll_result answer) ∷ []))
    after_poll l answer

  unfoldable pub after_flush : LoopLocals → Option ℕ → Prog Next
  after_flush l none = poll_stage (record l { wayland_flush_is_pending = false })
  after_flush l (some errno) =
      branch (λ _. errno == eagain) (poll_stage (record l { wayland_flush_is_pending = true }))
        (branch (λ _. errno == eintr) (pure (again l))
          (leave_lost os "Wayland display flush failed: %s\n" errno l))

  unfoldable pub after_dispatch_pending : LoopLocals → Option ℕ → Prog Next
  after_dispatch_pending l none = do
    failed ← call_display os.wayland.flush display
    after_flush l failed
  after_dispatch_pending l (some errno) =
      branch (λ _. errno == eintr) (pure (again l))
        (leave_lost os "Wayland display dispatch_pending failed: %s\n" errno l)

  unfoldable pub idle_loop_round : LoopLocals → Prog Next
  idle_loop_round l =
      branch interrupted (do result ← handle_interruption os; pure (done (l, cleanup (pos result))))
        (do
          when (λ s. s.sigchld_received)
              (do modify (λ g. record g { sigchld_received = false }); check_finished os)
          failed ← dispatch_by os display os.wayland.dispatch_pending
          after_dispatch_pending l failed)
