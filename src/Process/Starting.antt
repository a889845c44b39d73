-- ===== src/Process/Starting.antt =====
-- Starting the command, and a descriptor that says when it ends (process_handling.c).
pub mod Child
use runwhenidle.Prelude.{ℕ, String, not, Option, none, some, List, [], ◌∷◌}
use runwhenidle.Prelude.Int.{ℤ}
use runwhenidle.System.{
  Os, Forked, fork_failed, forked, fork, sigprocmask, sig_setmask, execl, pidfd_open, Arg, Prog,
  ◌>>=◌, ◌>>◌, pure, exit, ask, when, printf, fprintf_stderr,
}

perror : String → ℕ → Prog (Unit {0})
perror prefix errno = fprintf_stderr "%s: %s\n" (Arg.lit prefix ∷ Arg.error_text errno ∷ [])

-- "/bin/sh", "sh", "-c" and the command: the path and the arguments that execl is given.
abbrev pub shell_arguments : List ℕ → List (List ℕ)
shell_arguments command =
    (b'/' ∷ b'b' ∷ b'i' ∷ b'n' ∷ b'/' ∷ b's' ∷ b'h' ∷ [])
    ∷ (b's' ∷ b'h' ∷ [])
    ∷ (b'-' ∷ b'c' ∷ [])
    ∷ command
    ∷ []

module _ (os : Os) where
  -- The child of `run_shell_command`, which returns here where the shell takes its place.
  replaced_by_shell : Option ℕ → Prog (Unit {0})
  replaced_by_shell none = pure tt
  replaced_by_shell (some errno) = do perror "execl" errno; exit 1

  execute : List ℕ → Option ℕ → Prog (Unit {0})
  execute command none = do
    failed ← ask os.execl_fails (λ failed. execl (shell_arguments command) failed)
    replaced_by_shell failed
  execute command (some errno) = do perror "sigprocmask" errno; exit 1

  pub run_in_child : List ℕ → Prog (Unit {0})
  run_in_child command = do
    failed ← ask os.sigprocmask_fails (λ failed. sigprocmask sig_setmask [] failed)
    execute command failed

  -- The parent.
  pub started : List ℕ → Forked → Prog ℤ
  started command (fork_failed errno) = do perror "fork" errno; exit 1
  started command (forked pid) = do
    when (λ s. not s.quiet)
        (printf "Started \"%s\" with PID %i\n" (Arg.text command ∷ Arg.num pid ∷ []))
    pure pid

  unfoldable pub run_shell_command : List ℕ → Prog ℤ
  unfolding started perror
  run_shell_command command = do
    when (λ s. s.verbose) (printf "Starting \"%s\"\n" (Arg.text command ∷ []))
    child ← ask os.fork (λ _. fork)
    started command child

  -- The descriptor or -1, with an errno.
  unfoldable pub open_pid_file_descriptor_for_process : ℤ → Prog (ℤ × ℕ)
  open_pid_file_descriptor_for_process process_id =
      ask (λ h. os.pidfd_open h process_id) (λ _. pidfd_open process_id)
