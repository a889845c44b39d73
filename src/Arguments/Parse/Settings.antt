-- ===== src/Arguments/Parse/Settings.antt =====
-- What holds of the settings when the command line has been accepted.
use runwhenidle.Prelude.{
  ℕ, ◌≡◌, ◌≢◌, refl, sym, ◌∙◌, subst, ◌⊎◌, inr, Bool, true, false, not, ◌&&◌, Option, none, some,
  List, [], ◌∷◌, length, ◌==◌, arith, &&_false,
}
use mathlib.Core.Bool.{false≢true}
use mathlib.Core.List.{Memᴰ, nil≢cons}
use runwhenidle.Prelude.Int.{ℤ, pos, ◌==ℤ◌, ==ℤ_iff}
use runwhenidle.System.{
  Os, State, Event, Globals, Claim, Wp, Wp-mono, signals, Triple, Triple-Silent, Triple-pure,
  Triple-exit, Triple-bind, Triple-branch, Triple-when, Triple-fact, Silent, Silent-when,
  Silent-bind, Silent-gets, Silent-error, Silent-stderr,
}
use runwhenidle.Arguments.Usage.{print_usage-Silent, print_buffered-Silent}
use runwhenidle.Arguments.Remaining.{read_remaining_arguments_as_char}
use runwhenidle.Arguments.Remaining.Joined.{join, read_remaining_arguments_lem}
use runwhenidle.Arguments.Options.{ParsedOption, CommandLine}
use runwhenidle.Arguments.Options.Ranges.{IsTested, IsLongMethod, Tested, handle_options-Triple}
use runwhenidle.Arguments.Options.Method.{IsExit}
use runwhenidle.Arguments.Parse.{
  print_settings, no_command_expected, command_expected, reject_quiet_debug, reject_quiet_verbose,
  parse_command_line_arguments,
}

abbrev external : Globals → Bool
external g = not (g.external_pid ==ℤ pos 0)

-- The command is there exactly if no process id was given.
abbrev pub IsResult : List (List ℕ) → Globals → Option (List ℕ) → Type 0
IsResult arguments g none = (g.external_pid ≢ pos 0) × (arguments ≡ [])
IsResult arguments g (some text) =
    (g.external_pid ≡ pos 0) × (arguments ≢ []) × (text ≡ join arguments)

pub flip_true : (b : Bool) → not b ≡ true → b ≡ false
flip_true b e = ground arith

is_nil : (arguments : List (List ℕ)) → not (length arguments == 0) ≡ false → arguments ≡ []
is_nil [] e = refl
is_nil (a ∷ rest) e = ground arith

external_pid : (p : ℤ) → not (p ==ℤ pos 0) ≡ true → p ≢ pos 0
external_pid p e eq = false≢true (sym (flip_true _ e) ∙ (==ℤ_iff p (pos 0)).1 eq)

no_external_pid : (p : ℤ) → not (p ==ℤ pos 0) ≡ false → p ≡ pos 0
no_external_pid p e = (==ℤ_iff p (pos 0)).0 (ground arith)

module _ (os : Os) (cl : CommandLine)
    (allocates : (h : List Event) (n : ℕ) → os.allocates h n ≡ true) where
  pub read-Triple :
      (I : Claim) (arguments : List (List ℕ))
      → length arguments == 0 ≡ false
      → Triple IsExit I
          (read_remaining_arguments_as_char os arguments)
          (λ text g l. I g l × (arguments ≢ []) × (text ≡ join arguments))
  read-Triple I [] e = absurd (false≢true (sym e))
  read-Triple I (a ∷ rest) e = record {
    run = λ s h.
        Wp-mono (read_remaining_arguments_lem os a rest s allocates)
          (λ text t q. (
            subst (λ l. I t.globals l) (sym q.1.1) (subst (λ g. I g (signals s.trace)) (sym q.0) h),
            (λ eq. nil≢cons (sym eq)),
            q.1.0,
          ))
          (λ c t q. absurd q);
  }

  no_command-Triple :
      Triple IsExit
        (λ g l. IsTested g × (external g ≡ true))
        (no_command_expected os cl)
        (λ c g l. IsTested g × IsResult cl.arguments g c)
  unfolding no_command_expected
  no_command-Triple =
      Triple-branch _
        (Triple-fact (λ g l h. h.1)
          (λ some_. Triple-bind (read-Triple _ cl.arguments (flip_true _ some_)) (λ text.
            Triple-bind (Triple-Silent (inr refl) (Silent-error os _ _)) (λ _.
              Triple-bind (Triple-Silent (inr refl) (Silent-stderr _ _))
                (λ _. Triple-exit 1 (inr refl))))))
        (Triple-pure _ (λ g l h. (h.0.0, (external_pid g.external_pid h.0.1, is_nil _ h.1))))

  command-Triple :
      Triple IsExit
        (λ g l. IsTested g × (external g ≡ false))
        (command_expected os cl)
        (λ c g l. IsTested g × IsResult cl.arguments g c)
  unfolding command_expected
  command-Triple =
      Triple-branch _
        (Triple-bind (Triple-Silent (inr refl) (Silent-error os _ _)) λ _.
          Triple-bind (Triple-Silent (inr refl) (print_usage-Silent cl.program))
            λ _. Triple-exit 1 (inr refl))
        (Triple-fact (λ g l h. h.1)
          (λ some_. Triple-bind (read-Triple _ cl.arguments some_) (λ text.
            Triple-pure _
              (λ g l h. (h.0.0.0, (no_external_pid g.external_pid h.0.0.1, h.1, h.2))))))

  pub print_settings-Silent : Silent (print_settings os cl)
  unfolding print_settings
  print_settings-Silent = Silent-when _ _ (Silent-bind _ _ (Silent-gets _) λ s. Silent-stderr _ _)

  abbrev Accepted : Option (List ℕ) → Claim
  Accepted c g l =
      IsTested g
      × IsResult cl.arguments g c
      × (g.quiet ≡ true → (g.debug ≡ false) × (g.verbose ≡ false))

  parse-Triple :
      ((o : ParsedOption) → Memᴰ o cl.options → IsLongMethod o)
      → Triple IsExit Tested (parse_command_line_arguments os cl) Accepted
  unfolding parse_command_line_arguments reject_quiet_debug reject_quiet_verbose
  parse-Triple long = Triple-bind (handle_options-Triple os cl allocates cl.options long) λ _.
      Triple-bind (Triple-Silent (inr refl) (print_buffered-Silent os cl.getopt_error)) λ _.
        Triple-bind (Triple-Silent (inr refl) print_settings-Silent) λ _.
          Triple-bind (Triple-branch external no_command-Triple command-Triple) λ c.
            Triple-bind
              {J = λ _ g l. (IsTested g × IsResult cl.arguments g c) × (g.quiet && g.debug ≡ false)}
              (Triple-when (λ g. g.quiet && g.debug)
                (Triple-bind (Triple-Silent (inr refl) (Silent-error os _ _))
                  λ _. Triple-exit 1 (inr refl))
                (λ g l h e. (h, e)))
              λ _.
                Triple-bind {J = λ _. Accepted c}
                  (Triple-when (λ g. g.quiet && g.verbose)
                    (Triple-bind (Triple-Silent (inr refl) (Silent-error os _ _))
                      λ _. Triple-exit 1 (inr refl))
                    (λ g l h e. (
                      h.0.0,
                      h.0.1,
                      λ q. (&&_false g.quiet g.debug q h.1, &&_false g.quiet g.verbose q e),
                    )))
                  λ _. Triple-pure c (λ g l h. h)

-- Where the settings pass the tests to begin with, as the initial ones do, memory can be had, and no
-- --pause-method argument is so short that making it upper case is undefined: the program either
-- ends with 0 or 1, or goes on with a timeout of 1 to 100000000 seconds, a time to the start of
-- monitoring that is not negative (no maximum is tested, and none is stated), a known method, and
-- a process id or a command but never both, where the command is the arguments with spaces
-- between them; --quiet does not stand beside --debug or --verbose.
pub parse_accepts :
    (os : Os) (cl : CommandLine) (s : State)
    → ((h : List Event) (n : ℕ) → os.allocates h n ≡ true)
    → ((o : ParsedOption) → Memᴰ o cl.options → IsLongMethod o)
    → IsTested s.globals
    → Wp
        (parse_command_line_arguments os cl)
        (λ command t.
          IsTested t.globals
          × IsResult cl.arguments t.globals command
          × (t.quiet ≡ true → (t.debug ≡ false) × (t.verbose ≡ false)))
        (λ c t. (c ≡ 0) ⊎ (c ≡ 1))
        s
parse_accepts os cl s allocates long ready = (parse-Triple os cl allocates long).run s ready
