-- ===== src/Monitor/IdleLoop/Round/Orderly.antt =====
-- A round makes only calls that the Wayland library allows.
use runwhenidle.Prelude.{ℕ, Option, none, some}
use runwhenidle.System.{Os, Revents, Polled, poll_failed, polled}
use runwhenidle.Monitor.Signals.{process_signalfd, handle_interruption}
use runwhenidle.Monitor.Signals.Quiet.{process_signalfd-Mute, handle_interruption-Mute}
use runwhenidle.Wayland.Safe.{Safe, Safe-Mute, safe_rules}
use runwhenidle.Monitor.IdleLoop.Locals.{LoopLocals}
use runwhenidle.Monitor.IdleLoop.Stages.Orderly.{
  check_finished-Safe, leave_lost-Safe, leave_invalid-Safe, dispatch_by-Safe, start_monitor-Safe,
}
use runwhenidle.Monitor.IdleLoop.Round.{
  after_writable_flush, connection_stage, after_poll, poll_stage, after_flush,
  after_dispatch_pending, idle_loop_round,
}

module _ (os : Os) (d : Option ℕ) (retries : ℕ) where
  writable_flush-Safe :
      (l : LoopLocals) (rs : ℕ → Revents) (failed : Option ℕ)
      → Safe d (after_writable_flush os d retries l rs failed)
  unfolding after_writable_flush
  writable_flush-Safe l rs none = search start_monitor-Safe
  writable_flush-Safe l rs (some errno) =
      search (safe_rules, start_monitor-Safe, leave_lost-Safe) depth 40

  connection-Safe :
      (l : LoopLocals) (rs : ℕ → Revents) → Safe d (connection_stage os d retries l rs)
  unfolding connection_stage
  connection-Safe l rs =
      search (safe_rules, leave_invalid-Safe, writable_flush-Safe, start_monitor-Safe) depth 40

  signals-Safe : Safe d (process_signalfd os)
  signals-Safe = Safe-Mute (process_signalfd-Mute os)

  after_poll-Safe : (l : LoopLocals) (answer : Polled) → Safe d (after_poll os d retries l answer)
  unfolding after_poll
  after_poll-Safe l (poll_failed errno) = search safe_rules depth 40
  after_poll-Safe l (polled n rs) = search (safe_rules, signals-Safe, connection-Safe) depth 40

  poll-Safe : (l : LoopLocals) → Safe d (poll_stage os d retries l)
  unfolding poll_stage
  poll-Safe l = search (safe_rules, after_poll-Safe) depth 40

  flush-Safe : (l : LoopLocals) (failed : Option ℕ) → Safe d (after_flush os d retries l failed)
  unfolding after_flush
  flush-Safe l none = search poll-Safe
  flush-Safe l (some errno) = search (safe_rules, poll-Safe, leave_lost-Safe) depth 40

  dispatch_pending-Safe :
      (l : LoopLocals) (failed : Option ℕ) → Safe d (after_dispatch_pending os d retries l failed)
  unfolding after_dispatch_pending
  dispatch_pending-Safe l none = search (safe_rules, flush-Safe) depth 40
  dispatch_pending-Safe l (some errno) = search (safe_rules, leave_lost-Safe) depth 40

  interruption-Safe : Safe d (handle_interruption os)
  interruption-Safe = Safe-Mute (handle_interruption-Mute os)

  pub idle_round-Safe : (l : LoopLocals) → Safe d (idle_loop_round os d retries l)
  unfolding idle_loop_round
  idle_round-Safe l =
      search
        (
          safe_rules, interruption-Safe, check_finished-Safe, dispatch_by-Safe,
          dispatch_pending-Safe,
        )
        depth 60
