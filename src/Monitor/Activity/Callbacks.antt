-- ===== src/Monitor/Activity/Callbacks.antt =====
-- The two callbacks of the Wayland idle notification.
use runwhenidle.Prelude.{◌≡◌, refl, sym, ◌∙◌, inl, Bool, true, false, not, not_before, arith}
use runwhenidle.Prelude.Int.{ℤ}
use runwhenidle.System.{
  Os, State, Globals, Wp, Wp-mono, signals, Triple, Triple-Silent, Triple-pre, Triple-post,
  Triple-bind, Triple-branch, Triple-when, Silent-when, Silent-stderr,
}
use runwhenidle.Process.Table.Snapshot.{ProcWorks}
use runwhenidle.Process.Signals.Tree.{stopped}
use runwhenidle.Monitor.Invariant.{IsTracked, IsEndCode}
use runwhenidle.Monitor.Activity.{
  wayland_idle_notification_idled, wayland_idle_notification_resumed,
}
use runwhenidle.Monitor.Activity.Tracking.{IsStable, resume_paused-Triple, pause_running-Triple}

is_paused : (b : Bool) → not b ≡ false → b ≡ true
is_paused b e = ground arith

module _ (os : Os) (root : ℤ) (works : ProcWorks os root) (Q : Globals → Type 0)
    (stable : IsStable Q) where
  pub idled-Triple :
      Triple
        (IsEndCode os root)
        (λ g l. IsTracked root g l × Q g)
        (wayland_idle_notification_idled os)
        (λ _ g l. IsTracked root g l × (g.command_paused ≡ false) × Q g)
  unfolding wayland_idle_notification_idled
  idled-Triple =
      Triple-when (λ g. g.monitoring_started)
        (Triple-bind (Triple-Silent (inl refl) (Silent-when _ _ (Silent-stderr _ _))) λ _.
          Triple-branch (λ g. g.command_paused)
            (Triple-pre (λ g l h. h.0.0) (resume_paused-Triple os root works Q stable))
            (Triple-post (Triple-Silent (inl refl) (Silent-when _ _ (Silent-stderr _ _)))
              (λ _ g l h. (h.0.0.0, h.1, h.0.0.1))))
        (λ g l h e. (h.0, not_before _ _ h.0.monitored e, h.1))

  pub resumed-Triple :
      (b : Bool)
      → Triple
          (IsEndCode os root)
          (λ g l. IsTracked root g l × (g.monitoring_started ≡ b) × Q g)
          (wayland_idle_notification_resumed os)
          (λ _ g l. IsTracked root g l × (g.command_paused ≡ b) × Q g)
  unfolding wayland_idle_notification_resumed
  resumed-Triple b =
      Triple-when (λ g. g.monitoring_started)
        (Triple-bind (Triple-Silent (inl refl) (Silent-when _ _ (Silent-stderr _ _))) λ _.
          Triple-when (λ g. not g.command_paused)
            (Triple-post
              (Triple-pre (λ g l h. (h.0.0.0, h.0.1, (h.0.0.1, h.0.1, h.0.0.2)))
                (pause_running-Triple os root works
                  (λ g. (g.monitoring_started ≡ b) × (g.monitoring_started ≡ true) × Q g)
                  (λ g c k. (k.0, k.1, stable g c k.2))))
              (λ _ g l h. (h.0, h.1 ∙ sym h.2.1 ∙ h.2.0, h.2.2)))
            (λ g l h e. (h.0.0, is_paused _ e ∙ sym h.1 ∙ h.0.1, h.0.2)))
        (λ g l h e. (h.0, not_before _ _ h.0.monitored e ∙ sym e ∙ h.1, h.2))

-- With a working /proc, from a state in which the invariant holds: a callback that returns keeps
-- it. After `idled` the command runs; after `resumed` it is paused if monitoring has started,
-- and runs if it has not. The program may also end with 1 or the code that goes with the
-- command's end.
pub callbacks_follow_user :
    (os : Os) (root : ℤ) (works : ProcWorks os root) (s : State)
    → IsTracked root s.globals (signals s.trace)
    → Wp
        (wayland_idle_notification_idled os)
        (λ _ t.
          IsTracked root t.globals (signals t.trace)
          × (t.command_paused ≡ false)
          × (stopped root (signals t.trace) ≡ false))
        (λ c t. IsEndCode os root c)
        s
      × Wp
          (wayland_idle_notification_resumed os)
          (λ _ t.
            IsTracked root t.globals (signals t.trace)
            × (t.command_paused ≡ s.monitoring_started)
            × (stopped root (signals t.trace) ≡ s.monitoring_started))
          (λ c t. IsEndCode os root c)
          s
callbacks_follow_user os root works s tracked = (
  Wp-mono ((idled-Triple os root works (λ _. Unit {0}) (λ _ _ _. tt)).run s (tracked, tt))
      (λ _ t h. (h.0, h.1, sym h.0.flag ∙ h.1)) (λ c t h. h),
  Wp-mono
      ((resumed-Triple os root works (λ _. Unit {0}) (λ _ _ _. tt) s.monitoring_started).run s
        (tracked, refl, tt))
      (λ _ t h. (h.0, h.1, sym h.0.flag ∙ h.1)) (λ c t h. h),
)
