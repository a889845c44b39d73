-- ===== src/Monitor/Signals/Waiting.antt =====
-- The loop in which the program waits for the command to end, with the command running.
use runwhenidle.Prelude.{ℕ, ◌≡◌, ◌≢◌, ◌∙◌, [], refl, sym, inl, true, false, not, arith, ◌==◌}
use mathlib.Core.Bool.{false≢true}
use runwhenidle.Prelude.Int.{ℤ, pos}
use runwhenidle.System.{
  Os, State, Claim, signals, Wp-mono, Round, again, done, Triple, Triple-Silent, Triple-pre,
  Triple-post, Triple-pure, Triple-modify, Triple-bind, Triple-bind_gets, Triple-bind_modify,
  Triple-branch, Triple-when, Triple-fact, when, fprintf_stderr, ◌>>◌, Silent-when, Silent-stderr,
  LoopWp, LoopWp-bind, LoopWp-mono, forever-keep,
}
use runwhenidle.Process.Table.Snapshot.{ProcWorks}
use runwhenidle.Process.Signals.Tree.{stopped}
use runwhenidle.Monitor.Invariant.{
  IsTracked, IsSettled, IsEndCode, exit_if-Triple, resume_pid-Triple,
}
use runwhenidle.Monitor.Signals.{
  resume_before_leaving, wait_round, resume_and_wait_for_pid_to_exit_checking_for_signals,
}
use runwhenidle.Monitor.Signals.Leaving.{interruption_leaves_running}
use runwhenidle.Monitor.Signals.Receiving.{IsSignalStable, sleep-Triple}

received : (n : ℕ) → not (n == 0) ≡ true → n ≢ 0
received n h e = ground arith

module _ (os : Os) (root : ℤ) (works : ProcWorks os root) where
  abbrev pub Running : Claim
  Running g l = IsTracked root g l × (g.command_paused ≡ false)

  abbrev pub AfterWait : Round (Unit {0}) ℕ → Claim
  AfterWait (again _) g l = Running g l
  AfterWait (done c) g l =
      (g.command_paused ≡ false) × (stopped root l ≡ false) × (g.interruption_received ≢ 0)

  Running-stable : IsSignalStable Running
  Running-stable g l n b h = (
    record { root_is = h.0.root_is; known = h.0.known; flag = h.0.flag; monitored = h.0.monitored },
    h.1,
  )

  resume_before-Triple :
      Triple (IsEndCode os root) (IsTracked root) (resume_before_leaving os) (λ _. Running)
  unfolding resume_before_leaving
  resume_before-Triple =
      Triple-bind_modify (λ g l. IsSettled root g × (g.command_paused ≡ false)) _ _
        (λ g l h. (
          record { root_is = h.root_is; known = h.known; monitored = λ e. absurd (false≢true e) },
          refl,
        ))
        (Triple-bind_gets (λ g. g.pid)
          λ pid.
            Triple-fact (λ g l h. sym h.1 ∙ h.0.0.root_is)
              λ e.
                Triple-post
                  (Triple-pre (λ g l h. (h.0.0, h.0.1))
                    (resume_pid-Triple os root works
                      (λ g. IsSettled root g × (g.command_paused ≡ false)) pid e))
                  (λ _ g l h. (
                    record {
                      root_is = h.0.0.root_is;
                      known = h.0.0.known;
                      flag = h.0.1 ∙ sym h.1;
                      monitored = h.0.0.monitored;
                    },
                    h.0.1,
                  )))

  wait_round-Triple :
      (x : Unit {0}) → Triple (IsEndCode os root) Running (wait_round os x) AfterWait
  unfolding wait_round
  wait_round-Triple x =
      Triple-branch (λ g. not (g.interruption_received == 0))
        (Triple-bind
          (record {
            run = λ s h.
                Wp-mono (interruption_leaves_running os root works s h.0.0)
                  (λ c t q.
                    (q.1, q.2, λ none_. received s.interruption_received h.1 (sym q.3 ∙ none_)))
                  (λ c t q. q);
          })
          λ c. Triple-pure _ (λ g l h. h))
        (Triple-pre (λ g l h. h.0)
          (Triple-bind {J = λ _. Running}
            (Triple-when (λ g. g.sigchld_received)
              (Triple-modify _ (λ g l h. Running-stable g l g.interruption_received false h.0))
              (λ g l h _. h))
            λ _.
              Triple-bind_gets (λ g. g.pid)
                λ pid.
                  Triple-fact (λ g l h. sym h.1 ∙ h.0.0.root_is)
                    λ e.
                      Triple-bind
                        (Triple-pre (λ g l h. h.0) (exit_if-Triple os root works Running pid e))
                        λ _.
                          Triple-bind
                            (sleep-Triple Running Running-stable os (IsEndCode os root) (inl refl)
                              (pos 100))
                            λ _. Triple-pure _ (λ g l h. h)))

  resume_first-Triple :
      Triple
        (IsEndCode os root)
        (IsTracked root)
        (when
          (λ s. s.command_paused)
          (do
            when
                (λ s. s.verbose)
                (fprintf_stderr
                  "Since command was previously paused, we will try to resume it now to let it finish\n"
                  [])
            resume_before_leaving os))
        (λ _. Running)
  resume_first-Triple =
      Triple-when (λ g. g.command_paused)
        (Triple-bind (Triple-Silent (inl refl) (Silent-when _ _ (Silent-stderr _ _)))
          λ _. Triple-pre (λ g l h. h.0) resume_before-Triple)
        (λ g l h e. (h, e))

-- With a working /proc, from a state in which the invariant holds, and for any number of rounds:
-- the wait returns with the command running, and only where a signal is noted as received, or it ends the program with 1 or the code that goes
-- with the command's end, or is still going on when the rounds are over, with the command
-- running. It does not crash.
pub waiting_keeps_running :
    (os : Os) (root : ℤ) (works : ProcWorks os root) (rounds : ℕ) (s : State)
    → IsTracked root s.globals (signals s.trace)
    → LoopWp
        (resume_and_wait_for_pid_to_exit_checking_for_signals os rounds)
        (λ (_ : Unit {0}) t.
          IsTracked root t.globals (signals t.trace)
          × (t.command_paused ≡ false)
          × (stopped root (signals t.trace) ≡ false))
        (λ _ t.
          (t.command_paused ≡ false)
          × (stopped root (signals t.trace) ≡ false)
          × (t.interruption_received ≢ 0))
        (IsEndCode os root)
        s
unfolding resume_and_wait_for_pid_to_exit_checking_for_signals
waiting_keeps_running os root works rounds s tracked =
    LoopWp-bind ((resume_first-Triple os root works).run s tracked) (λ _ t h.
      LoopWp-mono
        (forever-keep (λ _. Running os root works) (AfterWait os root works)
          (wait_round-Triple os root works) (λ _ u q. q) rounds tt t h)
        (λ _ u q. (q.0, q.1, sym q.0.flag ∙ q.1)) (λ c u q. q))
