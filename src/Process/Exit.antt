-- ===== src/Process/Exit.antt =====
-- Waiting for the command, and ending with its exit code (process_handling.c).
pub mod Codes
pub mod Quiet
use runwhenidle.Prelude.{ℕ, ◌%◌, Bool, not, Option, none, some, [], ◌∷◌}
use runwhenidle.Prelude.Int.{ℤ, pos, ◌==ℤ◌}
use runwhenidle.System.{
  Os, kill, waitpid, WaitStatus, exited_with, killed_by, stopped_by, Arg, Prog, State, ◌>>=◌, ◌>>◌,
  pure, ask, when, branch, exit, fprintf_stderr,
}

-- WEXITSTATUS: bits 8 to 15 of the status. They hold the exit code of a process that has exited, 0
-- for one that a signal has ended, and the signal for one that is stopped.
unfoldable pub wexitstatus : WaitStatus → ℕ
wexitstatus (exited_with code) = code % 256
wexitstatus (killed_by signal) = 0
wexitstatus (stopped_by signal) = signal % 256

-- A failed waitpid does not write the status, which is then whatever the variable held.
unfoldable pub status_code : ℕ → Option WaitStatus → ℕ
unfolding wexitstatus
status_code unwritten none = unwritten % 256
status_code unwritten (some status) = wexitstatus status

-- `finished`, with the exit code: after kill(pid, 0) for an external process.
unfoldable pub finished_external : Option ℕ → Option ℕ
finished_external none = none
finished_external (some errno) = some 0

-- The same after waitpid(pid, &status, WNOHANG + WUNTRACED), for a child.
unfoldable pub finished_child : Option WaitStatus → Option ℕ
unfolding wexitstatus
finished_child (some (exited_with code)) = some (code % 256)
finished_child (some (killed_by signal)) = none
finished_child (some (stopped_by signal)) = none
finished_child none = none

abbrev pub is_external : State → Bool
is_external s = not (s.external_pid ==ℤ pos 0)

module _ (os : Os) where
  pub wait_for_pid_to_exit_synchronously : ℤ → Prog ℕ
  wait_for_pid_to_exit_synchronously pid = do
    exit_code ←
        ask (λ h. status_code (os.uninitialised h 0) (os.waitpid_block h pid)) (λ _. waitpid pid)
    when (λ s. s.verbose)
        (fprintf_stderr "PID %i has finished with exit code %u\n"
          (Arg.num pid ∷ Arg.nat exit_code ∷ []))
    pure exit_code

  unfoldable pub poll_finished : ℤ → Prog (Option ℕ)
  poll_finished pid =
      branch is_external
        (do errno ← ask (λ h. os.kill h pid 0) (kill pid 0); pure (finished_external errno))
        (do
          status ← ask (λ h. os.waitpid_nohang h pid) (λ _. waitpid pid)
          pure (finished_child status))

  unfoldable pub exit_finished : ℤ → Option ℕ → Prog (Unit {0})
  exit_finished pid none = pure tt
  exit_finished pid (some exit_code) = do
    when (λ s. s.verbose)
        (do
          fprintf_stderr "PID %i has finished" (Arg.num pid ∷ [])
          when (λ s. not (is_external s))
              (fprintf_stderr " with exit code %u" (Arg.nat exit_code ∷ []))
          fprintf_stderr "\n" [])
    exit exit_code

  unfoldable pub exit_if_pid_has_finished : ℤ → Prog (Unit {0})
  exit_if_pid_has_finished pid = do
    when (λ s. s.debug) (fprintf_stderr "Checking if PID %i has finished\n" (Arg.num pid ∷ []))
    finished ← poll_finished pid
    exit_finished pid finished
