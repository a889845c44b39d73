-- ===== src/Monitor/Signals/Leaving.antt =====
-- What happens on SIGINT and SIGTERM.
use runwhenidle.Prelude.{
  ℕ, ◌≡◌, refl, sym, ◌∙◌, ap, subst, ◌⊎◌, inl, inr, Bool, true, false, not, List, ◌∷◌, arith, ◌==◌,
  if◌then◌else◌, ◌||◌, ◌&&◌,
}
use runwhenidle.Prelude.Int.{ℤ, pos, ◌==ℤ◌}
use runwhenidle.System.{
  Os, Globals, State, sigint, sigterm, sigcont, Wp, signals, Triple, Triple-Silent, Triple-pre,
  Triple-post, Triple-bind, Triple-bind_gets, Triple-branch, Triple-when, Triple-fact,
  Triple-bind_modify, Silent, Silent-when, Silent-printf, silent_rules, when, ◌>>◌,
}
use mathlib.Core.List.Memᴰ
use runwhenidle.Process.Table.Snapshot.{ProcWorks, IsAnswer}
use runwhenidle.Process.Descendants.{ProcessInfo, ids}
use runwhenidle.Process.Signals.Delivery.{deliver}
use runwhenidle.Process.Signals.Tree.{stopped, stopped-interruption, sigcont-Puts, stopped-deliver}
use runwhenidle.Process.Exit.{is_external}
use runwhenidle.Process.Exit.Codes.{wait-Silent}
use runwhenidle.Monitor.Invariant.{
  IsTracked, IsSettled, IsEndCode, send-Triple, resume_exact-Triple,
}
use runwhenidle.Monitor.Signals.{
  forward_sigint, forward_sigterm, forward_interruption, explain_resuming, resume_before_leaving,
  wait_unless_external, handle_interruption,
}

abbrev external : Globals → Bool
external g = not (g.external_pid ==ℤ pos 0)

-- The command that the program has started gets the signal; one that ran before does not.
abbrev pub forwarded : Bool → ℤ → ℕ → List (ℤ × ℕ) → List (ℤ × ℕ)
forwarded is_ext root sig l =
    if not is_ext && (sig == sigint || sig == sigterm) then (root, sig) ∷ l else l

stopped-forwarded :
    (root : ℤ) (is_ext : Bool) (sig : ℕ) (l : List (ℤ × ℕ))
    → stopped root (forwarded is_ext root sig l) ≡ stopped root l
stopped-forwarded root is_ext sig l = ground (arith, stopped-interruption root root sig l)

module _ (os : Os) (root : ℤ) (works : ProcWorks os root) (ext : Bool) (l₀ : List (ℤ × ℕ)) where
  abbrev Fixed : ℕ → Globals → Type 0
  Fixed sig g =
      IsSettled root g
      × (external g ≡ ext)
      × (g.command_paused ≡ stopped root l₀)
      × (g.interruption_received ≡ sig)

  forward_sigint-Triple :
      (sig : ℕ)
      → Triple
          (IsEndCode os root)
          (λ g l. Fixed sig g × (l ≡ l₀))
          (forward_sigint os sigint)
          (λ _ g l. Fixed sig g × (l ≡ forwarded ext root sigint l₀))
  unfolding forward_sigint
  forward_sigint-Triple sig =
      Triple-branch external
        (Triple-post (Triple-Silent (inl refl) (Silent-when _ _ (Silent-printf _ _)))
          (λ _ g l h. (h.0.0, h.0.1 ∙ ap (λ b. forwarded b root sigint l₀) (sym h.1 ∙ h.0.0.1))))
        (Triple-bind (Triple-Silent (inl refl) (Silent-when _ _ (Silent-printf _ _))) λ _.
          Triple-bind_gets (λ g. g.pid)
            λ pid.
              Triple-fact {X = (pid ≡ root) × (ext ≡ false)}
                (λ g l h. (sym h.1 ∙ h.0.0.0.0.root_is, sym h.0.0.0.1 ∙ h.0.1))
                λ e.
                  Triple-post
                    (Triple-pre (λ g l h. (h.0.0.0, h.0.0.1))
                      (send-Triple os root works (Fixed sig) l₀ pid 1 "SIGINT"))
                    (λ _ g l h. (
                      h.0,
                      h.1
                          ∙ ap (λ p. (p, 2) ∷ l₀) e.0
                          ∙ ap (λ b. forwarded b root sigint l₀) (sym e.1),
                    )))

  forward_sigterm-Triple :
      (sig : ℕ)
      → Triple
          (IsEndCode os root)
          (λ g l. Fixed sig g × (l ≡ l₀))
          (forward_sigterm os sigterm)
          (λ _ g l. Fixed sig g × (l ≡ forwarded ext root sigterm l₀))
  unfolding forward_sigterm
  forward_sigterm-Triple sig =
      Triple-branch external
        (Triple-post (Triple-Silent (inl refl) (Silent-when _ _ (Silent-printf _ _)))
          (λ _ g l h. (h.0.0, h.0.1 ∙ ap (λ b. forwarded b root sigterm l₀) (sym h.1 ∙ h.0.0.1))))
        (Triple-bind (Triple-Silent (inl refl) (Silent-when _ _ (Silent-printf _ _))) λ _.
          Triple-bind_gets (λ g. g.pid)
            λ pid.
              Triple-fact {X = (pid ≡ root) × (ext ≡ false)}
                (λ g l h. (sym h.1 ∙ h.0.0.0.0.root_is, sym h.0.0.0.1 ∙ h.0.1))
                λ e.
                  Triple-post
                    (Triple-pre (λ g l h. (h.0.0.0, h.0.0.1))
                      (send-Triple os root works (Fixed sig) l₀ pid 14 "SIGTERM"))
                    (λ _ g l h. (
                      h.0,
                      h.1
                          ∙ ap (λ p. (p, 15) ∷ l₀) e.0
                          ∙ ap (λ b. forwarded b root sigterm l₀) (sym e.1),
                    )))

  forward-Triple :
      (sig : ℕ)
      → Triple
          (IsEndCode os root)
          (λ g l. Fixed sig g × (l ≡ l₀))
          (forward_interruption os sig)
          (λ _ g l. Fixed sig g × (l ≡ forwarded ext root sig l₀))
  unfolding forward_interruption
  forward-Triple sig =
      Triple-branch (λ _. sig == sigint)
        (Triple-fact {X = sigint ≡ sig} (λ g l h. ground arith)
          λ e.
            subst
              (λ n.
                Triple (IsEndCode os root)
                  (λ g l. (Fixed sig g × (l ≡ l₀)) × ((sig == sigint) ≡ true)) (forward_sigint os n)
                  (λ _ g l. Fixed sig g × (l ≡ forwarded ext root n l₀)))
              e (Triple-pre (λ g l h. h.0) (forward_sigint-Triple sig)))
        (Triple-fact (λ g l h. h.1)
          λ other.
            Triple-when (λ _. sig == sigterm)
              (Triple-fact {X = sigterm ≡ sig} (λ g l h. ground arith)
                λ e.
                  subst
                    (λ n.
                      Triple (IsEndCode os root)
                        (λ g l.
                          ((Fixed sig g × (l ≡ l₀)) × ((sig == sigint) ≡ false))
                          × ((sig == sigterm) ≡ true))
                        (forward_sigterm os n)
                        (λ _ g l. Fixed sig g × (l ≡ forwarded ext root n l₀)))
                    e (Triple-pre (λ g l h. h.0.0) (forward_sigterm-Triple sig)))
              (λ g l h neither. (h.0.0, h.0.1 ∙ ground arith)))

  -- The processes that are resumed on the way out.
  abbrev Resumed : ℕ → List ℤ → Globals → List (ℤ × ℕ) → Type 0
  Resumed sig ps g l =
      IsSettled root g
      × (g.command_paused ≡ false)
      × (g.interruption_received ≡ sig)
      × (l ≡ deliver sigcont ps (forwarded ext root sig l₀))

  resume_before-Triple :
      (sig : ℕ)
      → Triple
          (IsEndCode os root)
          (λ g l. Fixed sig g × (l ≡ forwarded ext root sig l₀))
          (resume_before_leaving os)
          (λ _ g l.
            (found : List ProcessInfo) × IsAnswer os root works found
            × Resumed sig (root ∷ ids found) g l)
  unfolding resume_before_leaving
  resume_before-Triple sig =
      Triple-bind_modify
        (λ g l.
          (IsSettled root g × (g.command_paused ≡ false) × (g.interruption_received ≡ sig))
          × (l ≡ forwarded ext root sig l₀))
        _ _ (λ g l h. ((ground arith, refl, h.0.3), h.1))
        (Triple-bind_gets (λ g. g.pid)
          λ pid.
            Triple-fact (λ g l h. sym h.1 ∙ h.0.0.0.root_is)
              λ e.
                Triple-post
                  (Triple-pre (λ g l h. h.0)
                    (resume_exact-Triple os root works
                      (λ g.
                        IsSettled root g
                        × (g.command_paused ≡ false)
                        × (g.interruption_received ≡ sig))
                      _ pid e))
                  (λ _ g l h. (h.1.0, h.1.1, (h.0.0, h.0.1, h.0.2, h.1.2))))

  wait_unless-Silent : Silent (wait_unless_external os)
  unfolding wait_unless_external
  wait_unless-Silent = search (silent_rules, wait-Silent)

  explain_resuming-Silent : Silent (explain_resuming os)
  unfolding explain_resuming
  explain_resuming-Silent = search silent_rules

  -- What is left of the tree on the way out.
  abbrev pub LeftRunning : ℕ → Globals → List (ℤ × ℕ) → Type 0
  LeftRunning sig g l =
      IsSettled root g
      × (g.command_paused ≡ false)
      × (stopped root l ≡ false)
      × (g.interruption_received ≡ sig)
      × ((stopped root l₀ ≡ true)
            × ((found : List ProcessInfo) × IsAnswer os root works found
                × (l ≡ deliver sigcont (root ∷ ids found) (forwarded ext root sig l₀)))
          ⊎ (stopped root l₀ ≡ false) × (l ≡ forwarded ext root sig l₀))

  after_resume :
      (sig : ℕ) (found : List ProcessInfo) (g : Globals) (l : List (ℤ × ℕ))
      → stopped root l₀ ≡ true
      → IsAnswer os root works found
      → Resumed sig (root ∷ ids found) g l
      → LeftRunning sig g l
  after_resume sig found g l was answer (settled, running, kept, e) = (
    settled,
    running,
    ap (stopped root) e
        ∙ stopped-deliver sigcont false sigcont-Puts root (root ∷ ids found) _ (Memᴰ.head refl),
    kept,
    inl (was, (found, answer, e)),
  )

  resume_part-Triple :
      (sig : ℕ)
      → Triple
          (IsEndCode os root)
          (λ g l. Fixed sig g × (l ≡ forwarded ext root sig l₀))
          (when
            (λ s. s.command_paused)
            (when (λ s. s.verbose) (explain_resuming os) >> resume_before_leaving os))
          (λ _ g l. LeftRunning sig g l)
  resume_part-Triple sig =
      Triple-when (λ g. g.command_paused)
        (Triple-bind (Triple-Silent (inl refl) (Silent-when _ _ explain_resuming-Silent)) λ _.
          Triple-fact {X = stopped root l₀ ≡ true} (λ g l h. sym h.0.0.2 ∙ h.1)
            λ was.
              Triple-post (Triple-pre (λ g l h. h.0) (resume_before-Triple sig))
                (λ _ g l h. after_resume sig h.0 g l was h.1 h.2))
        (λ g l h running. (
          h.0.0,
          running,
          ap (stopped root) h.1 ∙ stopped-forwarded root ext sig l₀ ∙ sym h.0.2 ∙ running,
          h.0.3,
          inr (sym h.0.2 ∙ running, h.1),
        ))

  pub handle_interruption-Triple :
      (sig : ℕ)
      → Triple
          (IsEndCode os root)
          (λ g l. Fixed sig g × (l ≡ l₀))
          (handle_interruption os)
          (λ _ g l. LeftRunning sig g l)
  unfolding handle_interruption
  handle_interruption-Triple sig =
      Triple-bind_gets (λ g. g.interruption_received)
        λ n.
          Triple-fact (λ g l h. sym h.1 ∙ h.0.0.3)
            λ e.
              Triple-bind
                (Triple-pre (λ g l h. (h.0.0, h.0.1))
                  (subst
                    (λ m.
                      Triple (IsEndCode os root) (λ g l. Fixed sig g × (l ≡ l₀))
                        (forward_interruption os m)
                        (λ _ g l. Fixed sig g × (l ≡ forwarded ext root sig l₀)))
                    (sym e) (forward-Triple sig)))
                λ _.
                  Triple-bind (resume_part-Triple sig)
                    λ _. Triple-Silent (inl refl) wait_unless-Silent

-- With a working /proc, from a state in which the invariant holds: when the interruption has
-- been handled, the variable still says which signal it was, nothing is marked as paused and the
-- command was not stopped last; if it was
-- stopped before, it and its descendants have been sent SIGCONT, after the signal itself where
-- the program has started the command; if not, no more than the signal itself was sent. The
-- program may also end with 1 or the code that goes with the command's end.
pub interruption_leaves_running :
    (os : Os) (root : ℤ) (works : ProcWorks os root) (s : State)
    → IsTracked root s.globals (signals s.trace)
    → Wp
        (handle_interruption os)
        (λ _ t.
          LeftRunning os root works
            (is_external s)
            (signals s.trace)
            s.interruption_received
            t.globals
            (signals t.trace))
        (λ c t. IsEndCode os root c)
        s
interruption_leaves_running os root works s tracked =
    (handle_interruption-Triple os root works (is_external s) (signals s.trace)
        s.interruption_received).run
      s ((ground arith, refl, tracked.flag, refl), refl)
