-- ===== src/Arguments/Usage.antt =====
-- The texts for --help and --version, and what getopt has printed into the buffer for it.
use runwhenidle.Prelude.{ℕ, ◌-◌, not, List, [], ◌∷◌, length, leb, ◌==◌}
use runwhenidle.System.{Os, Arg, Prog, ◌>>◌, when, printf, fprintf_error, Silent, silent_rules}

pub print_usage : List ℕ → Prog (Unit {0})
print_usage binary_name = do
  printf "Usage: %s [OPTIONS] [shell_command_to_run] [shell_command_arguments]\n"
      (Arg.text binary_name ∷ [])
  printf "\nOptions:\n" []
  printf
      "  --timeout, -t <seconds>         Set the user idle time after which the process\n                                  can be resumed in seconds. (default: 300 seconds).\n\n"
      []
  printf
      "  --pid, -p <pid>                 Monitor an existing process. When this option is used,\n                                  shell_command_to_run should not be passed.\n\n"
      []
  printf
      "  --start-monitor-after, -a <ms>  Set an initial delay in milliseconds before monitoring\n                                  starts. During this time the process runs unrestricted.\n                                  This helps to catch quick errors. (default: 300 ms).\n\n"
      []
  printf
      "  --pause-method, -m <method>     Specify method for pausing the process when the user is\n                                  not idle. Available Options (default: SIGSTOP): \n                                      SIGTSTP (can be ignored by the program),\n                                      SIGSTOP (cannot be ignored).\n\n"
      []
  printf
      "  --quiet, -q                     Suppress all output from %s except errors and only\n                                  display output from the command that is running.\n                                  No output if --pid options is used.\n\n"
      (Arg.text binary_name ∷ [])
  printf "  --verbose, -v                   Enable verbose output for monitoring.\n" []
  printf "  --debug                         Enable debugging output.\n" []
  printf "  --version, -V                   Print the program version information.\n" []

-- `version` is the text that the build gives VERSION.
pub print_version : List ℕ → Prog (Unit {0})
print_version version = printf "runwhenidle %s\n" (Arg.text version ∷ [])

abbrev getopt_error_buffer_size : ℕ
getopt_error_buffer_size = 1024

-- `printed` is the string in the buffer.
pub print_buffered_error_and_restore_stderr : Os → List ℕ → Prog (Unit {0})
print_buffered_error_and_restore_stderr os printed =
    when (λ _. not (length printed == 0))
      (do
        fprintf_error os "%s" (Arg.text printed ∷ [])
        when (λ _. leb (getopt_error_buffer_size - 1) (length printed))
            (fprintf_error os " (error message truncated)\n" []))

pub print_usage-Silent : (binary_name : List ℕ) → Silent (print_usage binary_name)
unfolding print_usage
print_usage-Silent binary_name = search silent_rules depth 60

pub print_version-Silent : (version : List ℕ) → Silent (print_version version)
unfolding print_version
print_version-Silent version = search silent_rules depth 60

pub print_buffered-Silent :
    (os : Os) (printed : List ℕ) → Silent (print_buffered_error_and_restore_stderr os printed)
unfolding print_buffered_error_and_restore_stderr
print_buffered-Silent os printed = search silent_rules depth 60
