-- ===== src/Process/Signals.antt =====
-- Sending, pausing and resuming (process_handling.c).
pub mod Delivery
pub mod Tree
pub mod Quiet
use runwhenidle.Prelude.{ℕ, String, true, false, not, Option, none, some, List, [], ◌∷◌}
use runwhenidle.Prelude.Int.{ℤ, pos, ◌==ℤ◌}
use runwhenidle.System.{
  Os, kill, sigcont, sigstop, sigtstp, PauseMethod, unknown, sigtstp_method, sigstop_method, Arg,
  Prog, ◌>>=◌, ◌>>◌, pure, ask, gets, when, exit, printf, fprintf_stderr, fprintf_error,
}
use runwhenidle.Process.Descendants.{ProcessInfo}
use runwhenidle.Process.Table.{get_child_processes}

-- The loop over the array that `get_child_processes` returns: it ends at the first id 0, which is
-- that of the marker behind the last descendant.
for_each_process : (ℤ → Prog (Unit {0})) → List ProcessInfo → Prog (Unit {0})
for_each_process act [] = pure tt
for_each_process act (p ∷ ps) = elim (p.process_id ==ℤ pos 0) [
  | true ↦ pure tt
  | false ↦ act p.process_id >> for_each_process act ps
]

module _ (os : Os) where
  handle_kill_error : String → ℤ → ℕ → Prog (Unit {0})
  handle_kill_error signal_name pid kill_errno =
      fprintf_stderr "Failed to send %s signal to PID %i: %s\n"
        (Arg.lit signal_name ∷ Arg.num pid ∷ Arg.error_text kill_errno ∷ [])

  -- What follows the call of kill.
  check_kill : ℤ → String → Option ℕ → Prog (Unit {0})
  check_kill pid signal_name none =
      when (λ s. s.debug)
        (fprintf_stderr "kill function sending %s returned %i\n"
          (Arg.lit signal_name ∷ Arg.nat 0 ∷ []))
  check_kill pid signal_name (some errno) = do handle_kill_error signal_name pid errno; exit 1

  pub send_signal_to_pid : ℤ → ℕ → String → Prog (Unit {0})
  send_signal_to_pid pid signal signal_name = do
    when (λ s. s.debug) (printf "Sending %s to %i\n" (Arg.lit signal_name ∷ Arg.num pid ∷ []))
    result ← ask (λ h. os.kill h pid signal) (kill pid signal)
    check_kill pid signal_name result

  -- The `switch` over the pause method.
  pause_by : PauseMethod → ℤ → Prog (Unit {0})
  pause_by sigtstp_method pid = send_signal_to_pid pid sigtstp "SIGTSTP"
  pause_by sigstop_method pid = send_signal_to_pid pid sigstop "SIGSTOP"
  pause_by unknown pid = do
    fprintf_error os "Unsupported pause method: %i\n" (Arg.nat 0 ∷ [])
    exit 1

  pub pause_command : ℤ → Prog (Unit {0})
  pause_command pid = do
    when (λ s. not s.quiet) (printf "Pausing PID %i\n" (Arg.num pid ∷ []))
    method ← gets (λ s. s.pause_method)
    pause_by method pid

  pub resume_command : ℤ → Prog (Unit {0})
  resume_command pid = do
    when (λ s. not s.quiet) (printf "Resuming PID %i\n" (Arg.num pid ∷ []))
    send_signal_to_pid pid sigcont "SIGCONT"

  pub pause_command_recursively : ℤ → Prog (Unit {0})
  pause_command_recursively pid = do
    pause_command pid
    child_process_ids ← get_child_processes os pid
    for_each_process pause_command child_process_ids

  pub resume_command_recursively : ℤ → Prog (Unit {0})
  resume_command_recursively pid = do
    resume_command pid
    child_process_ids ← get_child_processes os pid
    for_each_process resume_command child_process_ids
