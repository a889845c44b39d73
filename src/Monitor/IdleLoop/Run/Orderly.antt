-- ===== src/Monitor/IdleLoop/Run/Orderly.antt =====
-- The whole of the event loop makes only calls that the Wayland library allows.
use runwhenidle.Prelude.{ℕ, Option}
use runwhenidle.Prelude.Int.{ℤ, pos, negsuc}
use runwhenidle.System.{Os, Mute, mute_rules}
use runwhenidle.Monitor.Signals.Quiet.{resume_and_wait-Mute}
use runwhenidle.Process.Starting.{open_pid_file_descriptor_for_process}
use runwhenidle.Descriptors.{create_periodic_timer_file_descriptor_every_ms}
use runwhenidle.Descriptors.Quiet.{one_shot-Mute, periodic-Mute, refused-Mute, close-Mute}
use runwhenidle.Wayland.Safe.{Safe, Safe-Mute, Safe-bind, Safe-forever, safe_rules}
use runwhenidle.Monitor.IdleLoop.Locals.{LoopLocals, LoopExit, cleanup, lost}
use runwhenidle.Monitor.IdleLoop.Stages.Orderly.{check_finished-Safe}
use runwhenidle.Monitor.IdleLoop.Round.{idle_loop_round}
use runwhenidle.Monitor.IdleLoop.Round.Orderly.{idle_round-Safe}
use runwhenidle.Monitor.IdleLoop.Run.{
  start_timer, close_descriptors, leave_by_cleanup, leave_lost_connection, leave_loop, run_loop,
  with_fallback, with_process_exit, with_display, run_wayland_idle_event_loop,
}

module _ (os : Os) where
  close_descriptors-Mute : (l : LoopLocals) → Mute (close_descriptors os l)
  unfolding close_descriptors
  close_descriptors-Mute l = search (mute_rules, close-Mute) depth 40

  cleanup-Mute : (l : LoopLocals) (result : ℤ) → Mute (leave_by_cleanup os l result)
  unfolding leave_by_cleanup
  cleanup-Mute l result = search (mute_rules, close_descriptors-Mute)

  leave_lost-Mute : (rounds : ℕ) (l : LoopLocals) → Mute (leave_lost_connection os rounds l)
  unfolding leave_lost_connection
  leave_lost-Mute rounds l =
      search (mute_rules, close_descriptors-Mute, resume_and_wait-Mute) depth 40

  leave_loop-Mute :
      (rounds : ℕ) (l : LoopLocals) (e : LoopExit) → Mute (leave_loop os rounds (l, e))
  unfolding leave_loop
  leave_loop-Mute rounds l (cleanup result) = cleanup-Mute l result
  leave_loop-Mute rounds l lost = leave_lost-Mute rounds l

  start_timer-Mute : (delay : ℤ) → Mute (start_timer os delay)
  start_timer-Mute (pos n) = one_shot-Mute os n
  start_timer-Mute (negsuc n) = refused-Mute os

  module _ (d : Option ℕ) (rounds retries : ℕ) where
    give_up-Safe : (l : LoopLocals) (result : ℤ) → Safe d (leave_by_cleanup os l result)
    give_up-Safe l result = Safe-Mute (cleanup-Mute l result)

    run_loop-Safe : (l : LoopLocals) → Safe d (run_loop os rounds retries d l)
    unfolding run_loop
    run_loop-Safe l = Safe-bind _ _ (check_finished-Safe os d) λ _.
        Safe-bind _ _ (search safe_rules) λ _.
          Safe-bind _ _
            (Safe-forever (idle_loop_round os d retries) (idle_round-Safe os d retries) rounds l)
            λ (l', e). Safe-Mute (leave_loop-Mute rounds l' e)

    periodic-Safe : (ms : ℕ) → Safe d (create_periodic_timer_file_descriptor_every_ms os ms)
    periodic-Safe ms = Safe-Mute (periodic-Mute os ms)

    with_fallback-Safe : (l : LoopLocals) → Safe d (with_fallback os rounds retries d l)
    unfolding with_fallback
    with_fallback-Safe l = search (safe_rules, periodic-Safe, give_up-Safe, run_loop-Safe) depth 60

    with_process_exit-Safe :
        (l : LoopLocals) (pid : ℤ) (opened : ℤ × ℕ)
        → Safe d (with_process_exit os rounds retries d l pid opened)
    unfolding with_process_exit
    with_process_exit-Safe l pid (descriptor, errno) =
        search (safe_rules, with_fallback-Safe, run_loop-Safe) depth 60

    with_display-Safe : (l : LoopLocals) → Safe d (with_display os rounds retries d l)
    unfolding with_display open_pid_file_descriptor_for_process
    with_display-Safe l = search (safe_rules, give_up-Safe, with_process_exit-Safe) depth 60

    start_timer-Safe : (delay : ℤ) → Safe d (start_timer os delay)
    start_timer-Safe delay = Safe-Mute (start_timer-Mute delay)

    pub event_loop-Safe : Safe d (run_wayland_idle_event_loop os rounds retries d)
    unfolding run_wayland_idle_event_loop
    event_loop-Safe = Safe-bind _ _ (search safe_rules) λ delay.
        Safe-bind _ _ (start_timer-Safe delay)
          λ timer. search (safe_rules, give_up-Safe, with_display-Safe) depth 60
