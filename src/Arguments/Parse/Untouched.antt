-- ===== src/Arguments/Parse/Untouched.antt =====
-- What the command line does not touch.
use runwhenidle.Prelude.{ℕ, ◌≡◌, refl, inr, true, ◌&&◌, List}
use mathlib.Core.List.{Memᴰ}
use runwhenidle.Prelude.Int.{ℤ}
use runwhenidle.System.{
  Os, Event, Triple, Triple-Silent, Triple-pre, Triple-pure, Triple-exit, Triple-bind,
  Triple-branch, Triple-when, Triple-fact, Silent-error, Silent-stderr,
}
use runwhenidle.Arguments.Usage.{print_usage-Silent, print_buffered-Silent}
use runwhenidle.Arguments.Options.{ParsedOption, CommandLine}
use runwhenidle.Arguments.Options.Ranges.{IsLongMethod}
use runwhenidle.Arguments.Options.Method.{IsExit}
use runwhenidle.Arguments.Options.Untouched.{IsUntouched, IsPid, options-Triple}
use runwhenidle.Arguments.Parse.{
  no_command_expected, command_expected, reject_quiet_debug, reject_quiet_verbose,
  parse_command_line_arguments,
}
use runwhenidle.Arguments.Parse.Settings.{flip_true, read-Triple, print_settings-Silent}

module _ (os : Os) (cl : CommandLine) (root : ℤ)
    (allocates : (h : List Event) (n : ℕ) → os.allocates h n ≡ true) where
  no_command-Triple :
      Triple IsExit (IsUntouched root) (no_command_expected os cl) (λ _. IsUntouched root)
  unfolding no_command_expected
  no_command-Triple =
      Triple-branch _
        (Triple-fact (λ g l h. h.1)
          (λ some_.
            Triple-bind (read-Triple os cl allocates _ cl.arguments (flip_true _ some_)) (λ text.
              Triple-bind (Triple-Silent (inr refl) (Silent-error os _ _)) (λ _.
                Triple-bind (Triple-Silent (inr refl) (Silent-stderr _ _))
                  (λ _. Triple-exit 1 (inr refl))))))
        (Triple-pure _ (λ g l h. h.0))

  command-Triple : Triple IsExit (IsUntouched root) (command_expected os cl) (λ _. IsUntouched root)
  unfolding command_expected
  command-Triple =
      Triple-branch _
        (Triple-bind (Triple-Silent (inr refl) (Silent-error os _ _)) λ _.
          Triple-bind (Triple-Silent (inr refl) (print_usage-Silent cl.program))
            λ _. Triple-exit 1 (inr refl))
        (Triple-fact (λ g l h. h.1)
          (λ some_.
            Triple-bind (read-Triple os cl allocates _ cl.arguments some_)
              (λ text. Triple-pure _ (λ g l h. h.0.0))))

  pub parse-keeps :
      ((o : ParsedOption) → Memᴰ o cl.options → IsLongMethod o)
      → ((o : ParsedOption) → Memᴰ o cl.options → IsPid root o)
      → Triple IsExit
          (IsUntouched root)
          (parse_command_line_arguments os cl)
          (λ _. IsUntouched root)
  unfolding parse_command_line_arguments reject_quiet_debug reject_quiet_verbose
  parse-keeps long pid = Triple-bind (options-Triple os cl root allocates cl.options long pid) λ _.
      Triple-bind (Triple-Silent (inr refl) (print_buffered-Silent os cl.getopt_error)) λ _.
        Triple-bind (Triple-Silent (inr refl) (print_settings-Silent os cl allocates)) λ _.
          Triple-bind
            (Triple-branch _ (Triple-pre (λ g l h. h.0) no_command-Triple)
              (Triple-pre (λ g l h. h.0) command-Triple))
            λ c.
              Triple-bind {J = λ _. IsUntouched root}
                (Triple-when (λ g. g.quiet && g.debug)
                  (Triple-bind (Triple-Silent (inr refl) (Silent-error os _ _))
                    λ _. Triple-exit 1 (inr refl))
                  (λ g l h e. h))
                λ _.
                  Triple-bind {J = λ _. IsUntouched root}
                    (Triple-when (λ g. g.quiet && g.verbose)
                      (Triple-bind (Triple-Silent (inr refl) (Silent-error os _ _))
                        λ _. Triple-exit 1 (inr refl))
                      (λ g l h e. h))
                    λ _. Triple-pure c (λ g l h. h)
