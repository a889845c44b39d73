-- ===== src/Monitor/Activity/Tracking.antt =====
-- Pausing and resuming keep the invariant.
use runwhenidle.Prelude.{◌≡◌, refl, sym, ◌∙◌, inl, Bool, true, false, arith}
use runwhenidle.Prelude.Int.{ℤ}
use runwhenidle.System.{
  Os, Globals, Triple, Triple-Silent, Triple-pre, Triple-modify, Triple-bind, Triple-bind_gets,
  Triple-fact, Silent-when, Silent-printf, Silent-stderr,
}
use runwhenidle.Process.Table.Snapshot.{ProcWorks}
use runwhenidle.Monitor.Invariant.{
  IsTracked, IsSettled, IsEndCode, resume_pid-Triple, pause_pid-Triple,
}
use runwhenidle.Monitor.Activity.{
  resume_paused_command_on_user_idle, pause_running_command_on_user_activity,
}

-- A fact about the variables that does not depend on `command_paused`.
abbrev pub IsStable : (Globals → Type 0) → Type 0
IsStable Q = (g : Globals) (b : Bool) → Q g → Q (record g { command_paused = b })

module _ (os : Os) (root : ℤ) (works : ProcWorks os root) (Q : Globals → Type 0)
    (stable : IsStable Q) where
  -- Whatever was said of the pause, the command runs after it, and the program knows.
  pub resume_paused-Triple :
      Triple
        (IsEndCode os root)
        (λ g l. IsTracked root g l × Q g)
        (resume_paused_command_on_user_idle os)
        (λ _ g l. IsTracked root g l × (g.command_paused ≡ false) × Q g)
  unfolding resume_paused_command_on_user_idle
  resume_paused-Triple =
      Triple-bind (Triple-Silent (inl refl) (Silent-when _ _ (Silent-printf _ _))) λ _.
        Triple-bind_gets (λ g. g.pid)
          λ pid.
            Triple-fact (λ g l h. sym h.1 ∙ h.0.0.root_is)
              λ e.
                Triple-bind
                  (Triple-pre (λ g l h. (ground arith, h.0.1))
                    (resume_pid-Triple os root works (λ g. IsSettled root g × Q g) pid e))
                  (λ _. Triple-modify _ (λ g l h. (ground arith, refl, stable g false h.0.1)))

  -- While monitoring.
  pub pause_running-Triple :
      Triple
        (IsEndCode os root)
        (λ g l. IsTracked root g l × (g.monitoring_started ≡ true) × Q g)
        (pause_running_command_on_user_activity os)
        (λ _ g l. IsTracked root g l × (g.command_paused ≡ true) × Q g)
  unfolding pause_running_command_on_user_activity
  pause_running-Triple =
      Triple-bind_gets (λ g. g.pid)
        λ pid.
          Triple-fact (λ g l h. sym h.1 ∙ h.0.0.root_is)
            λ e.
              Triple-bind
                (Triple-pre (λ g l h. (ground arith, h.0.1, h.0.2))
                  (pause_pid-Triple os root works
                    (λ g. IsSettled root g × (g.monitoring_started ≡ true) × Q g) pid
                    (λ g h. h.0.known) e))
                (λ _.
                  Triple-bind (Triple-Silent (inl refl) (Silent-when _ _ (Silent-stderr _ _)))
                    (λ _. Triple-modify _ (λ g l h. (ground arith, refl, stable g true h.0.2))))
