-- ===== src/Examples/Polling.antt =====
-- The theorems on the loops and the callbacks, where the program watches process 7.
use runwhenidle.Prelude.{◌≢◌, ◌^◌, ◌≡◌, ◌⊎◌, refl, true, false, arith, none, ◌-◌, [], ◌∷◌}
use runwhenidle.Prelude.Int.{pos, ◌≤ℤ◌}
use runwhenidle.System.{
  State, kill, Wp, signals, Rounds, one, LoopWp, forever, ◌>>=◌, pure, ask, gets, modify, emit,
  branch, when, sigint,
}
use runwhenidle.Process.Exit.{
  exit_if_pid_has_finished, poll_finished, finished_child, exit_finished, is_external,
}
use runwhenidle.Process.Signals.Tree.{stopped}
use runwhenidle.Monitor.Invariant.{IsTracked, IsEndCode}
use runwhenidle.Monitor.Signals.{
  handle_interruption, sleep_for_ms_with_signalfd,
  resume_and_wait_for_pid_to_exit_checking_for_signals,
}
use runwhenidle.Monitor.Signals.Waiting.{waiting_keeps_running}
use runwhenidle.Monitor.Signals.Leaving.{LeftRunning, interruption_leaves_running}
use runwhenidle.Monitor.Activity.{
  pause_or_resume_command_depending_on_user_activity, on_idle_user, wayland_idle_notification_idled,
  wayland_idle_notification_resumed, polling_interval_ms,
}
use runwhenidle.Monitor.Activity.Decision.{paused_iff_active}
use runwhenidle.Monitor.Activity.Callbacks.{callbacks_follow_user}
use runwhenidle.Monitor.X11.{
  Locals, query_user_idle_time, check_finished, start_monitoring_if_due, poll_round, poll_loop,
}
use runwhenidle.Monitor.X11.Rounds.{
  polling_tracks, never_paused_without_idle_time, poll_loop_outcome, polling_ends_on_signal,
}
use runwhenidle.Examples.Kernel.{kernel, works, monitoring, monitoring-IsTracked}

-- The user has been active a second ago.
paused_iff_active_example :
    Wp
      (pause_or_resume_command_depending_on_user_activity kernel (pos 100) 1000)
      (λ r t.
        IsTracked (pos 7) t.globals (signals t.trace)
        × (t.monitoring_started ≡ true)
        × (t.user_idle_timeout_ms ≡ 300_000)
        × (t.command_paused ≡ true)
        × (stopped (pos 7) (signals t.trace) ≡ true)
        × ((r ≡ pos 100) ⊎ (pos polling_interval_ms ≤ℤ r)))
      (λ c t. IsEndCode kernel (pos 7) c)
      monitoring
paused_iff_active_example =
    paused_iff_active kernel (pos 7) works (pos 100) 1000 monitoring monitoring-IsTracked refl

abbrev before : Locals
before = record {
  sleep_time_ms = pos 100;
  user_idle_time_ms = 0;
  time_when_command_started = record { tv_sec = 1; tv_nsec = 0 };
}

abbrev after : Locals
after = record before { user_idle_time_ms = 400_000 }

one_round :
    Rounds (poll_round kernel) before monitoring after (poll_round kernel before monitoring).1
unfolding poll_round check_finished start_monitoring_if_due query_user_idle_time on_idle_user
    pause_or_resume_command_depending_on_user_activity exit_if_pid_has_finished poll_finished
    exit_finished sleep_for_ms_with_signalfd ◌>>=◌ pure ask gets modify emit branch when
    finished_child
one_round = one refl

polling_tracks_example :
    (stopped (pos 7) (signals (poll_round kernel before monitoring).1.trace)
      ≡ (poll_round kernel before monitoring).1.command_paused)
    × ((poll_round kernel before monitoring).1.monitoring_started ≡ true
        → (poll_round kernel before monitoring).1.command_paused ≡ false)
    × ((poll_round kernel before monitoring).1.monitoring_started ≡ false
        → (poll_round kernel before monitoring).1.command_paused ≡ false)
    × (pos 100 ≤ℤ pos 100)
polling_tracks_example =
    polling_tracks kernel (pos 7) works before after monitoring
      (poll_round kernel before monitoring).1 monitoring-IsTracked (omega arith) one_round

-- Without X11.
abbrev blind : State
blind = record monitoring {
  globals = record monitoring.globals { xscreensaver_is_available = false };
}

blind-IsTracked : IsTracked (pos 7) blind.globals (signals blind.trace)
unfolding stopped
blind-IsTracked = record {
  root_is = refl;
  known = monitoring-IsTracked.known;
  flag = refl;
  monitored = λ _. refl;
}

abbrev after_blind : Locals
after_blind = record before { user_idle_time_ms = 2 ^ 64 - 1 }

blind_round : Rounds (poll_round kernel) before blind after_blind (poll_round kernel before blind).1
unfolding poll_round check_finished start_monitoring_if_due query_user_idle_time on_idle_user
    pause_or_resume_command_depending_on_user_activity exit_if_pid_has_finished poll_finished
    exit_finished sleep_for_ms_with_signalfd ◌>>=◌ pure ask gets modify emit branch when
    finished_child
blind_round = one refl

never_paused_without_idle_time_example :
    ((poll_round kernel before blind).1.command_paused ≡ false)
    × (stopped (pos 7) (signals (poll_round kernel before blind).1.trace) ≡ false)
never_paused_without_idle_time_example =
    never_paused_without_idle_time kernel (pos 7) works before after_blind blind
      (poll_round kernel before blind).1 blind-IsTracked (omega arith) refl (omega arith)
      blind_round

poll_loop_outcome_example :
    LoopWp
      (poll_loop kernel 1000)
      (λ (y : Locals) t.
        IsTracked (pos 7) t.globals (signals t.trace) × (pos 100 ≤ℤ y.sleep_time_ms))
      (λ _ t. (t.command_paused ≡ false) × (stopped (pos 7) (signals t.trace) ≡ false))
      (IsEndCode kernel (pos 7))
      monitoring
poll_loop_outcome_example =
    poll_loop_outcome kernel (pos 7) works 1000 monitoring monitoring-IsTracked (λ _. refl)

-- SIGINT has come while the command is paused.
abbrev interrupted : State
interrupted = record {
  globals = record monitoring.globals { interruption_received = sigint; command_paused = true };
  trace = kill (pos 7) 19 none ∷ [];
}

interrupted-IsTracked : IsTracked (pos 7) interrupted.globals (signals interrupted.trace)
unfolding stopped
interrupted-IsTracked = record {
  root_is = refl;
  known = monitoring-IsTracked.known;
  flag = refl;
  monitored = λ _. refl;
}

polling_ends_on_signal_example :
    Wp
      (forever 1000 (poll_round kernel) before)
      (λ _ t. (t.command_paused ≡ false) × (stopped (pos 7) (signals t.trace) ≡ false))
      (λ c t. IsEndCode kernel (pos 7) c)
      interrupted
polling_ends_on_signal_example =
    polling_ends_on_signal kernel (pos 7) works 999 before interrupted interrupted-IsTracked
      (λ e. omega (arith, e))

interruption_leaves_running_example :
    Wp
      (handle_interruption kernel)
      (λ _ t.
        LeftRunning kernel
          (pos 7)
          works
          (is_external interrupted)
          (signals interrupted.trace)
          sigint
          t.globals
          (signals t.trace))
      (λ c t. IsEndCode kernel (pos 7) c)
      interrupted
interruption_leaves_running_example =
    interruption_leaves_running kernel (pos 7) works interrupted interrupted-IsTracked

callbacks_follow_user_example :
    Wp
      (wayland_idle_notification_idled kernel)
      (λ _ t.
        IsTracked (pos 7) t.globals (signals t.trace)
        × (t.command_paused ≡ false)
        × (stopped (pos 7) (signals t.trace) ≡ false))
      (λ c t. IsEndCode kernel (pos 7) c)
      interrupted
    × Wp
        (wayland_idle_notification_resumed kernel)
        (λ _ t.
          IsTracked (pos 7) t.globals (signals t.trace)
          × (t.command_paused ≡ true)
          × (stopped (pos 7) (signals t.trace) ≡ true))
        (λ c t. IsEndCode kernel (pos 7) c)
        interrupted
callbacks_follow_user_example =
    callbacks_follow_user kernel (pos 7) works interrupted interrupted-IsTracked

waiting_keeps_running_example :
    LoopWp
      (resume_and_wait_for_pid_to_exit_checking_for_signals kernel 1000)
      (λ (_ : Unit {0}) t.
        IsTracked (pos 7) t.globals (signals t.trace)
        × (t.command_paused ≡ false)
        × (stopped (pos 7) (signals t.trace) ≡ false))
      (λ _ t.
        (t.command_paused ≡ false)
        × (stopped (pos 7) (signals t.trace) ≡ false)
        × (t.interruption_received ≢ 0))
      (IsEndCode kernel (pos 7))
      interrupted
waiting_keeps_running_example =
    waiting_keeps_running kernel (pos 7) works 1000 interrupted interrupted-IsTracked
