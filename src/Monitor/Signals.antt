-- ===== src/Monitor/Signals.antt =====
-- Signals that the program receives, and what it does with them (main.c).
pub mod Leaving
pub mod Receiving
pub mod Waiting
pub mod Quiet
use runwhenidle.Prelude.{
  ℕ, zero, suc, Bool, true, false, not, ◌||◌, List, [], ◌∷◌, ◌==◌, if◌then◌else◌,
}
use runwhenidle.Prelude.Int.{ℤ, pos}
use runwhenidle.System.{
  Os, Globals, State, sigint, sigterm, sigchld, poll, read_signalfd, Prog, Round, again, done,
  forever, ◌>>=◌, ◌>>◌, pure, ask, gets, modify, when, branch, printf, fprintf_stderr,
}
use runwhenidle.Process.Signals.{send_signal_to_pid, resume_command_recursively}
use runwhenidle.Process.Exit.{
  is_external, wait_for_pid_to_exit_synchronously, exit_if_pid_has_finished,
}

-- The body of the loop of `process_signalfd`.
unfoldable pub take_signal : Globals → ℕ → Globals
take_signal g signo =
    if signo == sigint || signo == sigterm
    then record g { interruption_received = signo }
    else if signo == sigchld
    then record g { sigchld_received = true }
    else g

unfoldable pub take_signals : Globals → List ℕ → Globals
unfolding take_signal
take_signals g [] = g
take_signals g (signo ∷ rest) = take_signals (take_signal g signo) rest

abbrev pub interrupted : State → Bool
interrupted s = not (s.interruption_received == 0)

module _ (os : Os) where
  pub process_signalfd : Prog (Unit {0})
  process_signalfd = do
    numbers ← ask os.signalfd_reads (λ _. read_signalfd)
    modify (λ g. take_signals g numbers)

  unfoldable pub sleep_for_ms_with_signalfd : ℤ → Prog (Unit {0})
  sleep_for_ms_with_signalfd sleep_time_ms = do
    ready ← ask (λ h. os.poll_in h sleep_time_ms) (λ _. poll sleep_time_ms)
    when (λ _. ready) process_signalfd

  -- The first half of `handle_interruption`: the command gets the signal too, unless it was
  -- already running before the program.
  forward_sigint : ℕ → Prog (Unit {0})
  forward_sigint signal_number =
      branch is_external (when (λ s. not s.quiet) (printf "Received SIGINT\n" [])) (do
        when (λ s. not s.quiet)
            (printf "Received SIGINT, sending SIGINT to the command and waiting for it to finish\n"
              [])
        pid ← gets (λ s. s.pid)
        send_signal_to_pid os pid signal_number "SIGINT")

  forward_sigterm : ℕ → Prog (Unit {0})
  forward_sigterm signal_number =
      branch is_external (when (λ s. not s.quiet) (printf "Received SIGTERM\n" [])) (do
        when (λ s. not s.quiet)
            (printf
              "Received SIGTERM, sending SIGTERM to the command and waiting for it to finish\n" [])
        pid ← gets (λ s. s.pid)
        send_signal_to_pid os pid signal_number "SIGTERM")

  forward_interruption : ℕ → Prog (Unit {0})
  forward_interruption signal_number =
      branch (λ _. signal_number == sigint) (forward_sigint signal_number)
        (when (λ _. signal_number == sigterm) (forward_sigterm signal_number))

  -- Marks the command as running, and resumes it.
  resume_before_leaving : Prog (Unit {0})
  resume_before_leaving = do
    modify (λ g. record g { command_paused = false })
    pid ← gets (λ s. s.pid)
    resume_command_recursively os pid

  explain_resuming : Prog (Unit {0})
  explain_resuming = do
    fprintf_stderr "Since command was previously paused, we will try to resume it now" []
    when (λ s. not (is_external s))
        (fprintf_stderr " to be able to handle the interruption before exiting" [])
    fprintf_stderr "\n" []

  wait_unless_external : Prog ℕ
  wait_unless_external =
      branch is_external (pure 0)
        (do pid ← gets (λ s. s.pid); wait_for_pid_to_exit_synchronously os pid)

  pub handle_interruption : Prog ℕ
  handle_interruption = do
    signal_number ← gets (λ s. s.interruption_received)
    forward_interruption signal_number
    when (λ s. s.command_paused) (do when (λ s. s.verbose) explain_resuming; resume_before_leaving)
    wait_unless_external

  -- One round of the loop of `resume_and_wait_for_pid_to_exit_checking_for_signals`.
  wait_round : Unit {0} → Prog (Round (Unit {0}) ℕ)
  wait_round _ =
      branch interrupted (do result ← handle_interruption; pure (done result))
        (do
          when (λ s. s.sigchld_received) (modify (λ g. record g { sigchld_received = false }))
          pid ← gets (λ s. s.pid)
          exit_if_pid_has_finished os pid
          sleep_for_ms_with_signalfd (pos 100)
          pure (again tt))

  -- The rounds are a bound on how long the command runs, not on what the loop does.
  pub resume_and_wait_for_pid_to_exit_checking_for_signals : ℕ → Prog ℕ
  resume_and_wait_for_pid_to_exit_checking_for_signals rounds = do
    when (λ s. s.command_paused)
        (do
          when (λ s. s.verbose)
              (fprintf_stderr
                "Since command was previously paused, we will try to resume it now to let it finish\n"
                [])
          resume_before_leaving)
    forever rounds wait_round tt
