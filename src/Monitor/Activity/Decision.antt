-- ===== src/Monitor/Activity/Decision.antt =====
-- After each look at the user, the command is paused exactly if the user is active.
use runwhenidle.Prelude.{
  ℕ, ◌≡◌, refl, sym, ◌∙◌, ap, ◌⊎◌, inl, inr, true, false, not, Option, none, some, arith, ltb, leb,
}
use runwhenidle.Prelude.Int.{ℤ, pos, pos_part, neg_part, ◌≤ℤ◌, ltb_ℤ}
use runwhenidle.System.{
  Os, State, Wp, Wp-mono, signals, Globals, Timespec, Triple, Triple-Silent, Triple-pre,
  Triple-post, Triple-pure, Triple-bind, Triple-bind_gets, Triple-branch, Triple-fact, silent_rules,
  Silent, Silent-when, Silent-stderr, Silent-ask, Silent-bind, Claim,
}
use mathlib.Core.Logic.{⊎_elim}
use runwhenidle.Process.Table.Snapshot.{ProcWorks}
use runwhenidle.Process.Signals.Tree.{stopped}
use runwhenidle.Monitor.Invariant.{IsTracked, IsEndCode}
use runwhenidle.Monitor.Activity.{
  on_idle_user, pause_if_running, less_pausing_time, at_least_polling_interval, on_active_user,
  pause_or_resume_command_depending_on_user_activity, polling_interval_ms,
}
use runwhenidle.Monitor.Activity.Tracking.{IsStable, resume_paused-Triple, pause_running-Triple}

module _ (os : Os) (root : ℤ) (works : ProcWorks os root) (Q : Globals → Type 0)
    (stable : IsStable Q) where
  -- What is asked of the loop: the invariant, that monitoring has started, and any `Q`.
  abbrev pub Monitoring : ℕ → Claim
  Monitoring timeout g l =
      IsTracked root g l
      × (g.monitoring_started ≡ true)
      × ((g.user_idle_timeout_ms ≡ timeout) × Q g)

  abbrev Kept : ℕ → Globals → Type 0
  Kept timeout g = (g.monitoring_started ≡ true) × ((g.user_idle_timeout_ms ≡ timeout) × Q g)

  on_idle_user-Triple :
      (timeout : ℕ) (sleep : ℤ) (idle : ℕ)
      → Triple
          (IsEndCode os root)
          (Monitoring timeout)
          (on_idle_user os timeout sleep idle)
          (λ r g l.
            Monitoring timeout g l
            × (g.command_paused ≡ false)
            × ((r ≡ sleep) ⊎ (r ≡ pos polling_interval_ms)))
  unfolding on_idle_user
  on_idle_user-Triple timeout sleep idle =
      Triple-bind (Triple-Silent (inl refl) (Silent-when _ _ (Silent-stderr _ _))) λ _.
        Triple-branch (λ g. g.command_paused)
          (Triple-bind (Triple-Silent (inl refl) (Silent-when _ _ (Silent-stderr _ _))) λ _.
            Triple-bind
              (Triple-pre (λ g l h. (h.0.0, (h.0.1, h.0.2)))
                (resume_paused-Triple os root works (Kept timeout)
                  (λ g b h. (h.0, (h.1.0, stable g b h.1.1)))))
              λ _. Triple-pure _ (λ g l h. ((h.0, h.2.0, h.2.1), h.1, inr refl)))
          (Triple-pure _ (λ g l h. (h.0, h.1, inl refl)))

  pause_if_running-Triple :
      (timeout idle : ℕ)
      → Triple
          (IsEndCode os root)
          (Monitoring timeout)
          (pause_if_running os idle)
          (λ _ g l. Monitoring timeout g l × (g.command_paused ≡ true))
  unfolding pause_if_running
  pause_if_running-Triple timeout idle =
      Triple-branch (λ g. not g.command_paused)
        (Triple-bind (Triple-Silent (inl refl) (Silent-ask _ _ (λ a tr. refl))) λ start.
          Triple-bind (Triple-Silent (inl refl) (Silent-when _ _ (Silent-stderr _ _))) λ _.
            Triple-bind
              (Triple-pre (λ g l h. (h.0.0, h.0.1, (h.0.1, h.0.2)))
                (pause_running-Triple os root works (Kept timeout)
                  (λ g b h. (h.0, (h.1.0, stable g b h.1.1)))))
              λ _. Triple-pure _ (λ g l h. ((h.0, h.2.0, h.2.1), h.1)))
        (Triple-pure _ (λ g l h. (h.0, ground arith)))

  less_pausing_time-Silent :
      (start : Option Timespec) (target : ℤ) → Silent (less_pausing_time os start target)
  unfolding less_pausing_time
  less_pausing_time-Silent none target = search silent_rules
  less_pausing_time-Silent (some start) target =
      Silent-bind _ _ (Silent-when _ _ (Silent-stderr _ _))
        λ _. Silent-bind _ _ (Silent-ask _ _ (λ a tr. refl)) λ now. search silent_rules

  at_least-Triple :
      (I : Claim) (target : ℤ)
      → Triple
          (IsEndCode os root)
          I
          (at_least_polling_interval os target)
          (λ r g l. I g l × (pos polling_interval_ms ≤ℤ r))
  unfolding at_least_polling_interval
  at_least-Triple I target =
      Triple-branch (λ g. ltb_ℤ target (pos polling_interval_ms))
        (Triple-bind (Triple-Silent (inl refl) (Silent-when _ _ (Silent-stderr _ _)))
          λ _. Triple-pure _ (λ g l h. (h.0, omega arith)))
        (Triple-pure _ (λ g l h. (h.0, ground arith)))

  on_active_user-Triple :
      (timeout idle : ℕ)
      → Triple (IsEndCode os root) (Monitoring timeout) (on_active_user os timeout idle) (λ r g l.
        Monitoring timeout g l × (g.command_paused ≡ true) × (pos polling_interval_ms ≤ℤ r))
  unfolding on_active_user
  on_active_user-Triple timeout idle = Triple-bind (pause_if_running-Triple timeout idle) λ start.
      Triple-bind (Triple-Silent (inl refl) (Silent-when _ _ (Silent-stderr _ _))) λ _.
        Triple-bind (Triple-Silent (inl refl) (less_pausing_time-Silent start _)) λ target.
          Triple-bind (at_least-Triple _ target) λ r.
            Triple-bind (Triple-Silent (inl refl) (Silent-when _ _ (Silent-stderr _ _)))
              λ _. Triple-pure _ (λ g l h. (h.0.0, h.0.1, h.1))

  pub decide-Triple :
      (timeout : ℕ) (sleep : ℤ) (idle : ℕ)
      → Triple
          (IsEndCode os root)
          (Monitoring timeout)
          (pause_or_resume_command_depending_on_user_activity os sleep idle)
          (λ r g l.
            Monitoring timeout g l
            × (g.command_paused ≡ ltb idle timeout)
            × ((r ≡ sleep) ⊎ (pos polling_interval_ms ≤ℤ r)))
  unfolding pause_or_resume_command_depending_on_user_activity
  decide-Triple timeout sleep idle =
      Triple-bind_gets (λ g. g.user_idle_timeout_ms)
        λ t.
          Triple-fact {X = t ≡ timeout} (λ g l h. sym h.1 ∙ h.0.2.0)
            λ e.
              Triple-branch (λ g. leb t idle)
                (Triple-fact (λ g l h. h.1)
                  (λ past.
                    Triple-post
                      (Triple-pre (λ g l h. (h.0.0.0, h.0.0.1, (h.0.1, h.0.0.2.1)))
                        (on_idle_user-Triple t sleep idle))
                      (λ r g l h. (
                        (h.0.0, h.0.1, (h.0.2.0 ∙ e, h.0.2.1)),
                        h.1 ∙ ground arith,
                        ⊎_elim inl (λ k. inr (omega (arith, ap pos_part k, ap neg_part k))) h.2,
                      ))))
                (Triple-fact (λ g l h. h.1)
                  (λ before.
                    Triple-post
                      (Triple-pre (λ g l h. (h.0.0.0, h.0.0.1, (h.0.1, h.0.0.2.1)))
                        (on_active_user-Triple t idle))
                      (λ r g l h.
                        ((h.0.0, h.0.1, (h.0.2.0 ∙ e, h.0.2.1)), h.1 ∙ ground arith, inr h.2))))

-- With a working /proc, from a state in which the invariant holds and monitoring has started: a
-- look at the user that returns leaves the invariant and the timeout as they were, and the
-- command paused, by the variable and by the signals sent, exactly if the user has been idle for
-- less than the timeout. The next look is when it was to be, or not before a second has passed.
-- The program may end with 1, or with the code that goes with the command's end.
pub paused_iff_active :
    (os : Os) (root : ℤ) (works : ProcWorks os root) (sleep : ℤ) (idle : ℕ) (s : State)
    → IsTracked root s.globals (signals s.trace)
    → s.monitoring_started ≡ true
    → Wp
        (pause_or_resume_command_depending_on_user_activity os sleep idle)
        (λ r t.
          IsTracked root t.globals (signals t.trace)
          × (t.monitoring_started ≡ true)
          × (t.user_idle_timeout_ms ≡ s.user_idle_timeout_ms)
          × (t.command_paused ≡ ltb idle s.user_idle_timeout_ms)
          × (stopped root (signals t.trace) ≡ ltb idle s.user_idle_timeout_ms)
          × ((r ≡ sleep) ⊎ (pos polling_interval_ms ≤ℤ r)))
        (λ c t. IsEndCode os root c)
        s
paused_iff_active os root works sleep idle s tracked started =
    Wp-mono
      ((decide-Triple os root works (λ _. Unit {0}) (λ _ _ _. tt) s.user_idle_timeout_ms sleep
          idle).run
        s (tracked, started, (refl, tt)))
      (λ r t h. (h.0.0, h.0.1, h.0.2.0, h.1, sym h.0.0.flag ∙ h.1, h.2)) (λ c t h. h)
