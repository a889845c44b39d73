-- ===== src/Monitor/IdleLoop/Locals.antt =====
-- The local variables of `run_wayland_idle_event_loop` (main.c), the array for poll(), and the ways to
-- leave the loop.
pub mod Indices
use runwhenidle.Prelude.{
  ℕ, String, Bool, false, Option, none, some, List, [], ◌∷◌, ◌++◌, if◌then◌else◌,
}
use runwhenidle.Prelude.Int.{ℤ, pos, negsuc, ltb_ℤ}
use runwhenidle.System.{
  Os, Pollfd, Polled, poll_failed, polled, Arg, Prog, Round, done, ◌>>◌, pure, fprintf_error,
}

-- The local variables of the function that the loop reads or writes.
pub record LoopLocals : Type 0 where
  pub wayland_flush_is_pending : Bool
  pub wayland_display_file_descriptor : ℤ
  pub start_monitor_timer_file_descriptor : ℤ
  -- the descriptor in the array, which is -1 once the timer has been closed
  pub start_monitor_polled : ℤ
  pub process_exit_wait_file_descriptor : ℤ
  pub fallback_check_timer_file_descriptor : ℤ

-- How the loop is left: by the label for the clean-up, with a result, or by `break`.
pub data LoopExit : Type 0 where
  cleanup : ℤ → LoopExit
  lost : LoopExit

abbrev pub Next : Type 0
Next = Round LoopLocals (LoopLocals × LoopExit)

abbrev entry : ℤ → Pollfd
entry descriptor = record { fd = descriptor; pollout = false }

abbrev optional_entry : ℤ → List Pollfd
optional_entry descriptor = if ltb_ℤ descriptor (pos 0) then [] else entry descriptor ∷ []

-- `poll_file_descriptors`: the display, the timer, the signals, and two that may not be there.
pub poll_file_descriptors : ℤ → LoopLocals → List Pollfd
poll_file_descriptors signal_fd l =
    record { fd = l.wayland_display_file_descriptor; pollout = l.wayland_flush_is_pending }
    ∷ entry l.start_monitor_polled
    ∷ entry signal_fd
    ∷ (optional_entry l.process_exit_wait_file_descriptor
        ++ optional_entry l.fallback_check_timer_file_descriptor)

pub process_exit_poll_index : LoopLocals → Option ℕ
process_exit_poll_index l =
    if ltb_ℤ l.process_exit_wait_file_descriptor (pos 0) then none else some 3

pub external_pid_fallback_poll_index : LoopLocals → Option ℕ
external_pid_fallback_poll_index l =
    if ltb_ℤ l.fallback_check_timer_file_descriptor (pos 0)
    then none
    else if ltb_ℤ l.process_exit_wait_file_descriptor (pos 0)
    then some 3
    else some 4

-- The number that poll() returns.
pub poll_result : Polled → ℤ
poll_result (poll_failed errno) = negsuc 0
poll_result (polled n revents) = pos n

module _ (os : Os) where
  unfoldable pub leave_lost : String → ℕ → LoopLocals → Prog Next
  leave_lost format errno l = do
    fprintf_error os format (Arg.error_text errno ∷ [])
    fprintf_error os "User will be considered idle to allow the command to finish.\n" []
    pure (done (l, lost))

  unfoldable pub leave_invalid : String → LoopLocals → Prog Next
  leave_invalid format l = do fprintf_error os format []; pure (done (l, cleanup (negsuc 0)))
