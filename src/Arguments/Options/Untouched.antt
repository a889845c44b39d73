-- ===== src/Arguments/Options/Untouched.antt =====
-- What the options do not touch: the state of the command, the session, and what has been sent;
-- and where the process id comes from.
use runwhenidle.Prelude.{◌≡◌, ◌≢◌, refl, inl, inr, ℕ, true, false, List, [], ◌∷◌, ==_iff}
use mathlib.Core.List.{Memᴰ}
use runwhenidle.Prelude.Int.{ℤ, pos}
use runwhenidle.Libc.Strtol.{strtol, to_int}
use runwhenidle.System.{
  Os, Event, Claim, Triple, Triple-Silent, Triple-pre, Triple-pure, Triple-modify, Triple-exit,
  Triple-bind, Triple-bind_modify, Triple-branch, Triple-when, Triple-fact,
}
use runwhenidle.Arguments.Usage.{print_usage-Silent, print_version-Silent}
use runwhenidle.Arguments.Options.{
  ParsedOption, CommandLine, handle_timeout, handle_pid, handle_start_monitor_after, handle_option,
  handle_options,
}
use runwhenidle.Arguments.Options.Ranges.{
  IsLongMethod, reject_timeout-Triple, reject_pid-Triple, reject_start-Triple, reject_option-Triple,
}
use runwhenidle.Arguments.Options.Method.{IsExit, handle_method-Triple}
use runwhenidle.Wayland.Connection.{IsClosed}

-- Nothing has been paused, monitored or sent, there is no session, and the process id is 0 or `root`.
abbrev pub IsUntouched : ℤ → Claim
IsUntouched root g l =
    (g.command_paused ≡ false)
    × (g.monitoring_started ≡ false)
    × IsClosed g.wayland
    × (l ≡ [])
    × (g.external_pid ≢ pos 0 → g.external_pid ≡ root)

-- Each --pid argument is this number.
abbrev pub IsPid : ℤ → ParsedOption → Type 0
IsPid root o = o.option ≡ b'p' → to_int (strtol o.optarg).value ≡ root

module _ (os : Os) (cl : CommandLine) (root : ℤ)
    (allocates : (h : List Event) (n : ℕ) → os.allocates h n ≡ true) where
  abbrev pub Keeps : Claim
  Keeps = IsUntouched root

  option-Triple :
      (o : ParsedOption)
      → IsLongMethod o
      → IsPid root o
      → Triple IsExit Keeps (handle_option os cl o) (λ _. Keeps)
  unfolding handle_option handle_timeout handle_pid handle_start_monitor_after
  option-Triple o long pid =
      Triple-branch _
        (Triple-branch _ (reject_timeout-Triple os cl o) (Triple-modify _ (λ g l h. h.0.0)))
        (Triple-branch _
          (Triple-fact (λ g l h. pid ((==_iff _ _).0 h.1))
            (λ root_is.
              Triple-bind_modify Keeps _ _
                (λ g l h. (h.0.0.0, h.0.0.1, h.0.0.2, h.0.0.3, λ _. root_is))
                (Triple-when _ (reject_pid-Triple os cl o) (λ g l h e. h))))
          (Triple-branch _
            (Triple-bind_modify Keeps _ _ (λ g l h. h.0.0.0)
              (Triple-when _ (reject_start-Triple os cl o) (λ g l h e. h)))
            (Triple-branch _
              (Triple-fact (λ g l h. long ((==_iff _ _).0 h.1))
                (λ k. handle_method-Triple os cl allocates o (λ m g l h known. h.0.0.0.0) k))
              (Triple-pre (λ g l h. h.0.0.0.0)
                (Triple-branch _
                  (Triple-bind (Triple-Silent (inr refl) (print_version-Silent cl.version))
                    λ _. Triple-exit 0 (inl refl))
                  (Triple-branch _ (Triple-modify _ (λ g l h. h.0.0)) (
                    Triple-branch _ (Triple-modify _ (λ g l h. h.0.0.0)) (
                      Triple-branch _ (Triple-modify _ (λ g l h. h.0.0.0.0)) (
                        Triple-branch _
                          (Triple-bind (Triple-Silent (inr refl) (print_usage-Silent cl.program))
                            λ _. Triple-exit 0 (inl refl))
                          (reject_option-Triple os cl))))))))))

  pub options-Triple :
      (options : List ParsedOption)
      → ((o : ParsedOption) → Memᴰ o options → IsLongMethod o)
      → ((o : ParsedOption) → Memᴰ o options → IsPid root o)
      → Triple IsExit Keeps (handle_options os cl options) (λ _. Keeps)
  unfolding handle_options
  options-Triple [] long pid = Triple-pure tt (λ g l h. h)
  options-Triple (o ∷ rest) long pid =
      Triple-bind (option-Triple o (long o (Memᴰ.head refl)) (pid o (Memᴰ.head refl)))
        λ _. options-Triple rest (λ p m. long p (Memᴰ.tail m)) (λ p m. pid p (Memᴰ.tail m))
