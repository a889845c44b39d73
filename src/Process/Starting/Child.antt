-- ===== src/Process/Starting/Child.antt =====
-- What becomes of the child of `run_shell_command`.
use runwhenidle.Prelude.{ℕ, ◌≡◌, refl, ap, Option, none, some, List, [], ◌∷◌}
use runwhenidle.System.{
  Os, State, Event, sigprocmask, sig_setmask, execl, Wp, Wp-bind, Wp-ask, Wp-pure, Wp-exit,
  Wp-Silent, Silent-stderr,
}
use runwhenidle.Process.Starting.{shell_arguments, perror, replaced_by_shell, execute, run_in_child}

module _ (os : Os) (command : List ℕ) (s : State) where
  -- The trace with the calls that have been made, by what they answered.
  abbrev masked : Option ℕ → List Event
  masked failed = sigprocmask sig_setmask [] failed ∷ s.trace

  abbrev executed : Option ℕ → List Event
  executed failed = execl (shell_arguments command) failed ∷ masked none

  abbrev pub Replaced : State → Type 0
  Replaced t = t ≡ record s { trace = executed none }

  Replaced-Wp :
      (failed : Option ℕ) (t : State)
      → t ≡ record s { trace = executed failed }
      → Wp (replaced_by_shell os failed) (λ _ u. Replaced u) (λ c u. c ≡ 1) t
  unfolding replaced_by_shell perror
  Replaced-Wp none t e = Wp-pure tt e
  Replaced-Wp (some errno) t e =
      Wp-Silent (Silent-stderr _ _) (λ _ tr k. Wp-exit 1 refl) (λ tr k. refl)

  execute-Replaced :
      (failed : Option ℕ) (t : State)
      → t ≡ record s { trace = masked failed }
      → Wp (execute os command failed) (λ _ u. Replaced u) (λ c u. c ≡ 1) t
  unfolding execute perror
  execute-Replaced none t e =
      Wp-bind {Q = λ failed u. u ≡ record s { trace = executed failed }}
        (Wp-ask _ _ (
          ap {A = State}
            (λ u. record u {
              trace = execl (shell_arguments command) (os.execl_fails t.trace) ∷ u.trace;
            })
            e))
        Replaced-Wp (λ c u h. h)
  execute-Replaced (some errno) t e =
      Wp-Silent (Silent-stderr _ _) (λ _ tr k. Wp-exit 1 refl) (λ tr k. refl)

-- The child that has been forked either goes on as /bin/sh with -c and the command, after its signal
-- mask has been set to the empty one and with no other call, where both calls succeeded, or it ends
-- with 1.
pub child_runs_shell :
    (os : Os) (command : List ℕ) (s : State)
    → Wp (run_in_child os command) (λ _ t. Replaced os command s t) (λ c t. c ≡ 1) s
unfolding run_in_child
child_runs_shell os command s =
    Wp-bind {Q = λ failed t. t ≡ record s { trace = masked os command s failed }} (Wp-ask _ _ refl)
      (execute-Replaced os command s) (λ c t h. h)
