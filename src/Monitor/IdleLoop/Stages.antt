-- ===== src/Monitor/IdleLoop/Stages.antt =====
-- What a round of the event loop (main.c) does after poll(), and the callbacks of a dispatch.
pub mod Dispatch
pub mod Kept
pub mod Orderly
use runwhenidle.Prelude.{
  ℕ, suc, String, Bool, true, false, not, ◌&&◌, ◌||◌, Option, none, some, List, [], ◌∷◌, ◌++◌, ◌==◌,
  if◌then◌else◌,
}
use runwhenidle.Prelude.Int.{ℤ, pos, negsuc, ltb_ℤ, ◌==ℤ◌}
use runwhenidle.System.{
  Os, Globals, State, Pollfd, Revents, Polled, poll_failed, polled, poll_many, RegistryCallback,
  Callback, of_registry, idled, resumed, Dispatched, Arg, Event, Prog, Round, again, done, forever,
  ◌>>=◌, ◌>>◌, pure, crash, ask, gets, modify, emit, branch, when, fprintf_stderr, fprintf_error,
}
use runwhenidle.Process.Exit.{exit_if_pid_has_finished}
use runwhenidle.Process.Starting.{open_pid_file_descriptor_for_process}
use runwhenidle.Monitor.Signals.{
  process_signalfd, handle_interruption, interrupted,
  resume_and_wait_for_pid_to_exit_checking_for_signals,
}
use runwhenidle.Monitor.Activity.{
  polling_interval_ms, pause_running_command_on_user_activity, wayland_idle_notification_idled,
  wayland_idle_notification_resumed,
}
use runwhenidle.Monitor.X11.{check_finished}
use runwhenidle.Descriptors.{
  eintr, eagain, create_one_shot_timer_file_descriptor_after_ms, create_refused_timer,
  create_periodic_timer_file_descriptor_every_ms, close_file_descriptor_if_open,
  consume_timer_file_descriptor_checked,
}
use runwhenidle.Wayland.{registry_callback, call_display, start_wayland_idle_notification_object}
use runwhenidle.Monitor.IdleLoop.Locals.{
  LoopLocals, LoopExit, cleanup, lost, Next, process_exit_poll_index,
  external_pid_fallback_poll_index, leave_lost, leave_invalid,
}

module _ (os : Os) where
  -- The callbacks that a dispatch makes.
  callback_on : Option ℕ → RegistryCallback → Prog (Unit {0})
  callback_on none c = crash
  callback_on (some registry) c = registry_callback os registry c

  pub run_callback : Callback → Prog (Unit {0})
  run_callback (of_registry c) = do
    registry ← gets (λ s. s.wayland.wayland_registry)
    callback_on registry c
  run_callback idled = wayland_idle_notification_idled os
  run_callback resumed = wayland_idle_notification_resumed os

  unfoldable pub run_callbacks : List Callback → Prog (Unit {0})
  run_callbacks [] = pure tt
  run_callbacks (c ∷ rest) = do run_callback c; run_callbacks rest

module _ (os : Os) (display : Option ℕ) where
  -- wl_display_dispatch or wl_display_dispatch_pending: the errno, if it fails.
  unfoldable pub dispatch_by : (List Event → Dispatched) → Prog (Option ℕ)
  dispatch_by answer = do
    dispatched ← call_display answer display
    run_callbacks os dispatched.callbacks
    pure dispatched.failed

-- The stages of a round, from the last to the first. The retries are a bound on how often a read of a
-- timer is interrupted.
module _ (os : Os) (display : Option ℕ) (retries : ℕ) where
  after_dispatch : LoopLocals → Option ℕ → Prog Next
  after_dispatch l none = pure (again l)
  after_dispatch l (some errno) =
      branch (λ _. errno == eintr || errno == eagain) (pure (again l))
        (leave_lost os "Wayland display dispatch failed: %s\n" errno l)

  display_stage : LoopLocals → Revents → Prog Next
  display_stage l display_revents =
      branch (λ _. display_revents.pollin)
        (do failed ← dispatch_by os display os.wayland.dispatch; after_dispatch l failed)
        (pure (again l))

  fallback_due : LoopLocals → Revents → Prog Next
  fallback_due l display_revents = do
    result ←
        consume_timer_file_descriptor_checked os (suc retries)
          l.fallback_check_timer_file_descriptor "external-pid fallback"
    branch (λ _. ltb_ℤ result (pos 0)) (pure (done (l, cleanup (negsuc 0))))
        (do check_finished os; display_stage l display_revents)

  fallback_stage : LoopLocals → (ℕ → Revents) → Option ℕ → Prog Next
  fallback_stage l revents none = display_stage l (revents 0)
  fallback_stage l revents (some index) =
      branch (λ _. (revents index).pollnval)
        (leave_invalid os "External-pid fallback timer file descriptor became invalid\n" l)
        (branch (λ _. (revents index).pollerr)
          (leave_invalid os "External-pid fallback timer file descriptor reported an error\n" l)
          (branch (λ _. (revents index).pollin) (fallback_due l (revents 0))
            (display_stage l (revents 0))))

  process_exit_stage : LoopLocals → (ℕ → Revents) → Option ℕ → Prog Next
  process_exit_stage l revents none = fallback_stage l revents (external_pid_fallback_poll_index l)
  process_exit_stage l revents (some index) =
      branch (λ _. (revents index).pollnval)
        (leave_invalid os "Process-exit file descriptor became invalid\n" l)
        (do
          when (λ _. (revents index).pollin || (revents index).pollhup || (revents index).pollerr)
              (check_finished os)
          fallback_stage l revents (external_pid_fallback_poll_index l))

  after_start : LoopLocals → (ℕ → Revents) → ℤ → Prog Next
  after_start l revents result =
      branch (λ _. ltb_ℤ result (pos 0))
        (do
          fprintf_error os
              "Failed to create Wayland idle notification object, user will be considered idle.\n"
              []
          pure (done (l, lost)))
        (do
          when (λ s. not s.command_paused) (pause_running_command_on_user_activity os)
          process_exit_stage l revents (process_exit_poll_index l))

  start_monitoring : LoopLocals → (ℕ → Revents) → Prog Next
  start_monitoring l revents = do
    result ←
        consume_timer_file_descriptor_checked os (suc retries) l.start_monitor_timer_file_descriptor
          "start-monitor"
    branch (λ _. ltb_ℤ result (pos 0)) (pure (done (l, cleanup (negsuc 0))))
        (do
          closed ←
              close_file_descriptor_if_open os l.start_monitor_timer_file_descriptor
                "start-monitor timer"
          modify (λ g. record g { monitoring_started = true })
          started ← start_wayland_idle_notification_object os
          after_start
              (record l {
                start_monitor_timer_file_descriptor = closed;
                start_monitor_polled = negsuc 0;
              })
              revents started)

  pub start_monitor_stage : LoopLocals → (ℕ → Revents) → Prog Next
  start_monitor_stage l revents =
      branch (λ s. not s.monitoring_started && not (ltb_ℤ l.start_monitor_polled (pos 0)))
        (branch (λ _. (revents 1).pollnval)
          (leave_invalid os "Start-monitor timer file descriptor became invalid\n" l)
          (branch (λ _. (revents 1).pollerr)
            (leave_invalid os "Start-monitor timer file descriptor reported an error\n" l)
            (branch (λ _. (revents 1).pollin) (start_monitoring l revents)
              (process_exit_stage l revents (process_exit_poll_index l)))))
        (process_exit_stage l revents (process_exit_poll_index l))
