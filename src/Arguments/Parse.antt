-- ===== src/Arguments/Parse.antt =====
-- `parse_command_line_arguments`.
pub mod Settings
pub mod Untouched
use runwhenidle.Prelude.{
  ℕ, Bool, true, false, not, ◌&&◌, Option, none, some, List, [], ◌∷◌, length, ◌==◌,
}
use runwhenidle.Prelude.Int.{ℤ, pos, ◌==ℤ◌}
use runwhenidle.System.{
  Os, State, Arg, Prog, PauseMethod, unknown, sigtstp_method, sigstop_method, ◌>>=◌, ◌>>◌, pure,
  exit, gets, when, branch, fprintf_error, fprintf_stderr,
}
use runwhenidle.Process.Exit.{is_external}
use runwhenidle.Arguments.Usage.{print_usage, print_buffered_error_and_restore_stderr}
use runwhenidle.Arguments.Remaining.{read_remaining_arguments_as_char}
use runwhenidle.Arguments.Options.{CommandLine, handle_options}

abbrev bit : Bool → ℕ
bit true = 1
bit false = 0

-- The values of the enumeration.
abbrev number_of_method : PauseMethod → ℕ
number_of_method unknown = 0
number_of_method sigtstp_method = 1
number_of_method sigstop_method = 2

module _ (os : Os) (cl : CommandLine) where
  pub print_settings : Prog (Unit {0})
  print_settings =
      when (λ s. s.debug)
        (do
          s ← gets (λ s. s.globals)
          fprintf_stderr
              "verbose: %i, debug: %i, quiet: %i, pause_method: %i, user_idle_timeout_ms: %lu, start_monitoring_after_ms: %ld\n"
              (Arg.nat (bit s.verbose)
                ∷ Arg.nat (bit s.debug)
                ∷ Arg.nat (bit s.quiet)
                ∷ Arg.nat (number_of_method s.pause_method)
                ∷ Arg.nat s.user_idle_timeout_ms
                ∷ Arg.num s.start_monitor_after_ms
                ∷ []))

  -- Where --pid is given, there must be no command, and otherwise there must be one. What is
  -- returned is `shell_command_to_run`, NULL where it is not set.
  no_command_expected : Prog (Option (List ℕ))
  no_command_expected =
      branch (λ _. not (length cl.arguments == 0))
        (do
          found ← read_remaining_arguments_as_char os cl.arguments
          fprintf_error os
              "%s: Running command is not supported when -p option is used. Found unexpected \"%s\"\n"
              (Arg.text cl.program ∷ Arg.text found ∷ [])
          fprintf_stderr "Try %s --help for more information\n" (Arg.text cl.program ∷ [])
          exit 1)
        (pure none)

  command_expected : Prog (Option (List ℕ))
  command_expected =
      branch (λ _. length cl.arguments == 0)
        (do
          fprintf_error os "Either shell command or --pid|-p option is required\n" []
          print_usage cl.program
          exit 1)
        (do command ← read_remaining_arguments_as_char os cl.arguments; pure (some command))

  reject_quiet_debug : Prog (Unit {0})
  reject_quiet_debug =
      when (λ s. s.quiet && s.debug)
        (do
          fprintf_error os "%s: Incompatible options --quiet|-q and --debug used\n"
              (Arg.text cl.program ∷ [])
          exit 1)

  reject_quiet_verbose : Prog (Unit {0})
  reject_quiet_verbose =
      when (λ s. s.quiet && s.verbose)
        (do
          fprintf_error os "%s: Incompatible options --quiet|-q and --verbose|-v used\n"
              (Arg.text cl.program ∷ [])
          exit 1)

  pub parse_command_line_arguments : Prog (Option (List ℕ))
  parse_command_line_arguments = do
    handle_options os cl cl.options
    print_buffered_error_and_restore_stderr os cl.getopt_error
    print_settings
    command ← branch is_external no_command_expected command_expected
    reject_quiet_debug
    reject_quiet_verbose
    pure command
