-- ===== src/Process/Exit/Codes.antt =====
-- When the program ends because the command has, and with which code.
use runwhenidle.Prelude.{
  ℕ, zero, suc, ◌%◌, subst, String, ◌≡◌, refl, ◌∙◌, sym, ap, ◌⊎◌, inl, inr, Bool, true, false,
  Option, none, some, List, [], ◌∷◌,
}
use runwhenidle.Prelude.Int.{ℤ}
use runwhenidle.System.{
  Os, Event, State, WaitStatus, exited_with, killed_by, stopped_by, print, kill, waitpid, Prog, Arg,
  ◌>>◌, when, fprintf_stderr, Wp, Wp-mono, Wp-pure, Wp-exit, Wp-when, Wp-branch, Wp-bind_ask,
  Framed, Wp-bind-Framed, Silent, Silent-ask, Silent-bind, silent_rules, signals,
}
use runwhenidle.Process.Exit.{
  finished_external, finished_child, is_external, wait_for_pid_to_exit_synchronously, poll_finished,
  exit_finished, exit_if_pid_has_finished,
}

-- A trace without what is printed.
abbrev pub unprinted : List Event → List Event
unprinted [] = []
unprinted (print stream format args ∷ es) = unprinted es
unprinted (e ∷ es) = e ∷ unprinted es

signals-unprinted : (tr : List Event) → signals (unprinted tr) ≡ signals tr
signals-unprinted [] = refl
signals-unprinted (kill p zero answer ∷ es) = signals-unprinted es
signals-unprinted (kill p (suc n) none ∷ es) = ap (λ l. (p, suc n) ∷ l) (signals-unprinted es)
signals-unprinted (kill p (suc n) (some errno) ∷ es) = signals-unprinted es
signals-unprinted (e ∷ es) = signals-unprinted es

-- A program that only prints.
abbrev Prints : Prog (Unit {0}) → State → Type 0
Prints m s = Wp m (Framed s (λ _ tr. unprinted tr ≡ unprinted s.trace)) (λ c t. ⊥) s

Prints-stderr :
    (format : String) (args : List Arg) (s : State) → Prints (fprintf_stderr format args) s
unfolding fprintf_stderr
Prints-stderr format args s = record { holds = (refl, refl) }

Prints-when :
    (test : State → Bool) (m : Prog (Unit {0})) (s : State)
    → ((t : State) → Prints m t)
    → Prints (when test m) s
Prints-when test m s f = Wp-when test m (λ _. f s) (λ _. (refl, refl))

-- The rule for `m >> n` where `m` only prints.
Wp-print :
    {m : Prog (Unit {0})} {B : Type 0} {n : Prog B} {s : State} {R : B → State → Type 0}
    {F : ℕ → State → Type 0}
    → ((t : State) → Prints m t)
    → ((tr : List Event) → unprinted tr ≡ unprinted s.trace → Wp n R F (record s { trace = tr }))
    → Wp (m >> n) R F s
Wp-print {s} f k =
    Wp-bind-Framed _ (λ _ _. ⊥) (Wp-mono (f s) (λ _ t h. h) (λ c t h. absurd h)) (λ _ tr h. k tr h)
      (λ c tr h. absurd h)

Prints-seq :
    (m n : Prog (Unit {0})) (s : State)
    → ((t : State) → Prints m t)
    → ((t : State) → Prints n t)
    → Prints (m >> n) s
Prints-seq m n s f g =
    Wp-print f (λ tr e. Wp-mono (g _) (λ _ t k. (k.0, k.1 ∙ e)) (λ c t k. absurd k))

-- The code that an answer of kill with the signal 0 gives: 0 where it fails, and none where it does not.
abbrev pub ExternalEnd : Option ℕ → Option ℕ → Type 0
ExternalEnd none finished = finished ≡ none
ExternalEnd (some errno) finished = finished ≡ some 0

-- The code that an answer of waitpid gives: the low 8 bits of the status of a child that has exited,
-- and none for one that has not, or that a signal has ended or stopped.
abbrev pub ChildEnd : Option WaitStatus → Option ℕ → Type 0
ChildEnd (some (exited_with code)) finished = finished ≡ some (code % 256)
ChildEnd (some (killed_by n)) finished = finished ≡ none
ChildEnd (some (stopped_by n)) finished = finished ≡ none
ChildEnd none finished = finished ≡ none

external_end : (answer : Option ℕ) → ExternalEnd answer (finished_external answer)
unfolding finished_external
external_end none = refl
external_end (some errno) = refl

child_end : (answer : Option WaitStatus) → ChildEnd answer (finished_child answer)
unfolding finished_child
child_end none = refl
child_end (some (exited_with code)) = refl
child_end (some (killed_by n)) = refl
child_end (some (stopped_by n)) = refl

-- What the kernel says about the end of `p` in the one call that is made from `s`, at the history
-- `h`, and the trace `tr` after it: for an external process whether a signal can be sent, for a child
-- the answer of waitpid.
abbrev pub Observed : Os → ℤ → State → Option ℕ → List Event → Type 0
Observed os p s finished tr =
    (h : List Event) × (unprinted h ≡ unprinted s.trace)
    × ((is_external s ≡ true)
          × ExternalEnd (os.kill h p 0) finished
          × (unprinted tr ≡ kill p 0 (os.kill h p 0) ∷ unprinted s.trace)
        ⊎ (is_external s ≡ false)
          × ChildEnd (os.waitpid_nohang h p) finished
          × (unprinted tr ≡ waitpid p ∷ unprinted s.trace))

Observed-signals :
    (os : Os) (p : ℤ) (s : State) (finished : Option ℕ) (tr : List Event)
    → Observed os p s finished tr
    → signals tr ≡ signals s.trace
Observed-signals os p s finished tr (h, _, inl (_, _, e)) =
    sym (signals-unprinted tr) ∙ ap signals e ∙ signals-unprinted s.trace
Observed-signals os p s finished tr (h, _, inr (_, _, e)) =
    sym (signals-unprinted tr) ∙ ap signals e ∙ signals-unprinted s.trace

module _ (os : Os) (p : ℤ) where
  pub wait-Silent : Silent (wait_for_pid_to_exit_synchronously os p)
  unfolding wait_for_pid_to_exit_synchronously
  wait-Silent = Silent-bind _ _ (Silent-ask _ _ (λ a tr. refl)) (λ c. search silent_rules)

  poll_finished-Wp : (s : State) → Wp (poll_finished os p) (Framed s (Observed os p s)) (λ c t. ⊥) s
  unfolding poll_finished
  poll_finished-Wp s =
      Wp-branch _ _ _
        (λ e. Wp-bind_ask _ _ _ (Wp-pure _ (refl, (s.trace, refl, inl (e, external_end _, refl)))))
        (λ e. Wp-bind_ask _ _ _ (Wp-pure _ (refl, (s.trace, refl, inr (e, child_end _, refl)))))

  exit_finished-Wp :
      (finished : Option ℕ) (s : State)
      → Wp
          (exit_finished os p finished)
          (Framed s (λ _ tr. (finished ≡ none) × (unprinted tr ≡ unprinted s.trace)))
          (Framed s (λ c tr. (finished ≡ some c) × (unprinted tr ≡ unprinted s.trace)))
          s
  unfolding exit_finished
  exit_finished-Wp none s = Wp-pure tt (refl, (refl, refl))
  exit_finished-Wp (some code) s =
      Wp-print
        (λ t. Prints-when _ _ t λ u.
          Prints-seq _ _ u (Prints-stderr _ _) (λ v.
            Prints-seq _ _ v (λ w. Prints-when _ _ w (Prints-stderr _ _)) (Prints-stderr _ _)))
        (λ tr e. Wp-exit code (refl, (refl, e)))

  Observed-print :
      (s : State) (r r' : Option ℕ) (before tr tr' : List Event)
      → unprinted before ≡ unprinted s.trace
      → Observed os p (record s { trace = before }) r tr
      → r ≡ r'
      → unprinted tr' ≡ unprinted tr
      → Observed os p s r' tr' × (signals tr' ≡ signals s.trace)
  Observed-print s r r' before tr tr' e q same e' =
      let o = moved q in (o, Observed-signals os p s r' tr' o)
    where
      moved : Observed os p (record s { trace = before }) r tr → Observed os p s r' tr'
      moved (h, f, inl (external, k, l)) = (
        h,
        f ∙ e,
        inl (
          external,
          subst (ExternalEnd (os.kill h p 0)) same k,
          e' ∙ l ∙ ap (λ t. kill p 0 (os.kill h p 0) ∷ t) e,
        ),
      )
      moved (h, f, inr (child, k, l)) = (
        h,
        f ∙ e,
        inr (
          child,
          subst (ChildEnd (os.waitpid_nohang h p)) same k,
          e' ∙ l ∙ ap (λ t. waitpid p ∷ t) e,
        ),
      )

  pub exit_if_pid_has_finished-Wp :
      (s : State)
      → Wp
          (exit_if_pid_has_finished os p)
          (Framed s (λ _ tr. Observed os p s none tr × (signals tr ≡ signals s.trace)))
          (Framed s (λ c tr. Observed os p s (some c) tr × (signals tr ≡ signals s.trace)))
          s
  unfolding exit_if_pid_has_finished
  exit_if_pid_has_finished-Wp s =
      Wp-print (λ t. Prints-when _ _ t (Prints-stderr _ _))
        (λ before e.
          Wp-bind-Framed _ (λ c tr. ⊥)
            (Wp-mono (poll_finished-Wp (record s { trace = before })) (λ _ t k. k)
              (λ c t k. absurd k))
            (λ r tr q.
              Wp-mono (exit_finished-Wp r (record s { trace = tr }))
                (λ _ t k. (k.0, Observed-print s r none before tr t.trace e q k.1.0 k.1.1))
                (λ c t k. (k.0, Observed-print s r (some c) before tr t.trace e q k.1.0 k.1.1)))
            (λ c tr' q. absurd q))
