-- ===== src/Monitor/Invariant.antt =====
-- The variable `command_paused` and the signals that were sent tell the same story.
use runwhenidle.Prelude.{
  ℕ, suc, String, ◌≡◌, ◌≢◌, sym, ◌∙◌, ap, subst, ◌⊎◌, inl, inr, true, false, some, List, ◌∷◌,
}
use runwhenidle.Prelude.Int.{ℤ}
use runwhenidle.System.{
  Os, Event, Globals, State, sigcont, unknown, Wp, Wp-mono, signals, Claim, Holds, Triple,
}
use runwhenidle.Process.Table.Snapshot.{ProcWorks, IsAnswer}
use runwhenidle.Process.Signals.{
  send_signal_to_pid, pause_command_recursively, resume_command_recursively,
}
use runwhenidle.Process.Signals.Delivery.{deliver, send-Wp, resume_recursively-Wp}
use runwhenidle.Process.Descendants.{ProcessInfo, ids}
use runwhenidle.Process.Signals.Tree.{stopped, pause_stops_tree, resume_continues_tree}
use runwhenidle.Process.Exit.{exit_if_pid_has_finished}
use runwhenidle.Process.Exit.Codes.{Observed, exit_if_pid_has_finished-Wp}

-- `command_paused` is set exactly while the last stop or continue signal to the command was a stop,
-- and the command is not paused before monitoring has started.
pub record IsTracked (root : ℤ) (g : Globals) (l : List (ℤ × ℕ)) : Type 0 where
  pub root_is : g.pid ≡ root
  pub known : g.pause_method ≢ unknown
  pub flag : g.command_paused ≡ stopped root l
  pub monitored : g.command_paused ≡ true → g.monitoring_started ≡ true

-- The part of it that says nothing of the signals.
pub record IsSettled (root : ℤ) (g : Globals) : Type 0 where
  pub root_is : g.pid ≡ root
  pub known : g.pause_method ≢ unknown
  pub monitored : g.command_paused ≡ true → g.monitoring_started ≡ true

-- The codes with which the program may end in the middle: 1 for a failure of its own, or the code
-- that goes with the command's end.
abbrev pub IsEndCode : Os → ℤ → ℕ → Type 0
IsEndCode os root c = (c ≡ 1) ⊎ ((s : State) × (tr : List Event) × Observed os root s (some c) tr)

module _ (os : Os) (root : ℤ) (works : ProcWorks os root) where
  pub resume-Triple :
      (P : Globals → Type 0)
      → Triple
          (IsEndCode os root)
          (λ g l. P g)
          (resume_command_recursively os root)
          (λ _ g l. P g × (stopped root l ≡ false))
  resume-Triple P = record {
    run = λ s h.
        Wp-mono (resume_continues_tree os root works s)
          (λ _ t q. (subst P (sym q.0) h, q.1.root_is)) (λ c t q. inl q.1);
  }

  pub pause-Triple :
      (P : Globals → Type 0)
      → ((g : Globals) → P g → g.pause_method ≢ unknown)
      → Triple
          (IsEndCode os root)
          (λ g l. P g)
          (pause_command_recursively os root)
          (λ _ g l. P g × (stopped root l ≡ true))
  pause-Triple P known = record {
    run = λ s h.
        Wp-mono (pause_stops_tree os root works s (known s.globals h))
          (λ _ t q. (subst P (sym q.0) h, q.1.root_is)) (λ c t q. inl q.1);
  }

  -- The same where the id was read from the variable `pid`.
  pub resume_pid-Triple :
      (P : Globals → Type 0) (pid : ℤ)
      → pid ≡ root
      → Triple
          (IsEndCode os root)
          (λ g l. P g)
          (resume_command_recursively os pid)
          (λ _ g l. P g × (stopped root l ≡ false))
  resume_pid-Triple P pid e =
      subst
        (λ p.
          Triple (IsEndCode os root) (λ g l. P g) (resume_command_recursively os p)
            (λ _ g l. P g × (stopped root l ≡ false)))
        (sym e) (resume-Triple P)

  pub pause_pid-Triple :
      (P : Globals → Type 0) (pid : ℤ)
      → ((g : Globals) → P g → g.pause_method ≢ unknown)
      → pid ≡ root
      → Triple
          (IsEndCode os root)
          (λ g l. P g)
          (pause_command_recursively os pid)
          (λ _ g l. P g × (stopped root l ≡ true))
  pause_pid-Triple P pid known e =
      subst
        (λ p.
          Triple (IsEndCode os root) (λ g l. P g) (pause_command_recursively os p)
            (λ _ g l. P g × (stopped root l ≡ true)))
        (sym e) (pause-Triple P known)

  -- What the check for the command's end keeps: everything.
  pub exit_if-Triple :
      (I : Claim) (pid : ℤ)
      → pid ≡ root
      → Triple (IsEndCode os root) I (exit_if_pid_has_finished os pid) (λ _. I)
  exit_if-Triple I pid e = record {
    run = λ s h.
        subst
          (λ p.
            Wp (exit_if_pid_has_finished os p) (λ _ t. Holds I t) (λ c t. IsEndCode os root c) s)
          (sym e)
          (Wp-mono (exit_if_pid_has_finished-Wp os root s)
            (λ _ t q.
              subst (λ l. I t.globals l) (sym q.1.1)
                (subst (λ g. I g (signals s.trace)) (sym q.0) h))
            (λ c t q. inr (s, t.trace, q.1.0)));
  }

  -- One signal, and a whole resume, with what they add to the signals sent before.
  pub send-Triple :
      (P : Globals → Type 0) (l₀ : List (ℤ × ℕ)) (p : ℤ) (n : ℕ) (name : String)
      → Triple
          (IsEndCode os root)
          (λ g l. P g × (l ≡ l₀))
          (send_signal_to_pid os p (suc n) name)
          (λ _ g l. P g × (l ≡ (p, suc n) ∷ l₀))
  send-Triple P l₀ p n name = record {
    run = λ s h.
        Wp-mono (send-Wp os p n name s)
          (λ _ t q. (subst P (sym q.0) h.0, q.1 ∙ ap (λ l. (p, suc n) ∷ l) h.1))
          (λ c t q. inl q.1.0);
  }

  pub resume_exact-Triple :
      (P : Globals → Type 0) (l₀ : List (ℤ × ℕ)) (pid : ℤ)
      → pid ≡ root
      → Triple
          (IsEndCode os root)
          (λ g l. P g × (l ≡ l₀))
          (resume_command_recursively os pid)
          (λ _ g l.
            P g
            × ((found : List ProcessInfo) × IsAnswer os root works found
                × (l ≡ deliver sigcont (root ∷ ids found) l₀)))
  resume_exact-Triple P l₀ pid e = record {
    run = λ s h.
        subst
          (λ p.
            Wp (resume_command_recursively os p)
              (λ _ t.
                P t.globals
                × ((found : List ProcessInfo) × IsAnswer os root works found
                    × (signals t.trace ≡ deliver sigcont (root ∷ ids found) l₀)))
              (λ c t. IsEndCode os root c) s)
          (sym e)
          (Wp-mono (resume_recursively-Wp os root works s)
            (λ _ t q. (
              subst P (sym q.0) h.0,
              (
                q.1.1.0,
                q.1.1.1,
                q.1.2
                    ∙ ap (λ ps. deliver sigcont ps (signals s.trace)) q.1.1.2
                    ∙ ap (deliver sigcont (root ∷ ids q.1.1.0)) h.1,
              ),
            ))
            (λ c t q. inl q.1.0));
  }
