-- ===== src/Monitor/X11/Polling.antt =====
-- One round of the polling loop.
use runwhenidle.Prelude.{
  ℕ, ◌≡◌, ◌≢◌, refl, sym, ◌∙◌, subst, inl, Bool, true, false, not, ◌&&◌, List, [], ◌∷◌, arith, ltb,
  ◌==◌,
}
use mathlib.Core.Logic.{⊎_elim}
use mathlib.Core.Bool.{false≢true}
use runwhenidle.Prelude.Int.{ℤ, pos, ◌≤ℤ◌, ltb_ℤ}
use runwhenidle.System.{
  Os, Globals, State, Timespec, Wp, Wp-mono, Wp-bind, Wp-branch, Wp-pure, Holds, LastRound, signals,
  Claim, Triple, Triple-Silent, Triple-pre, Triple-post, Triple-pure, Triple-modify, Triple-bind,
  Triple-bind_gets, Triple-branch, Triple-when, Triple-fact, Triple-bind_modify, Silent-when,
  Silent-stderr, Silent-ask, Silent-bind, Silent-emit, Silent-pure, Silent-gets, Round, again, done,
  Arg, ◌>>=◌, ◌>>◌, pure, modify, branch, when, fprintf_stderr, Partial, Triple-Partial,
  Partial-crash, Partial-pre, Partial-post, Partial-branch, Partial-bind,
}
use runwhenidle.Process.Table.Snapshot.{ProcWorks}
use runwhenidle.Process.Signals.Tree.{stopped}
use runwhenidle.Monitor.Time.{get_elapsed_time_ms, sleep_time_int}
use runwhenidle.Monitor.Invariant.{IsTracked, IsEndCode, exit_if-Triple}
use runwhenidle.Monitor.Signals.Leaving.{interruption_leaves_running}
use runwhenidle.Monitor.Signals.{sleep_for_ms_with_signalfd}
use runwhenidle.Monitor.Signals.Receiving.{IsSignalStable, sleep-Triple}
use runwhenidle.Monitor.Activity.{pause_or_resume_command_depending_on_user_activity}
use runwhenidle.Monitor.Activity.Decision.{decide-Triple}
use runwhenidle.Monitor.X11.{
  idle_time_not_available_value, Locals, query_user_idle_time, leave_after_interruption,
  check_finished, start_monitoring_if_due, poll_round,
}

module _ (os : Os) (root : ℤ) (works : ProcWorks os root) where
  pub check-Triple :
      (I : Claim)
      → ((g : Globals) (l : List (ℤ × ℕ)) → I g l → g.pid ≡ root)
      → Triple (IsEndCode os root) I (check_finished os) (λ _. I)
  unfolding check_finished
  check-Triple I at_root =
      Triple-bind_gets (λ g. g.pid)
        λ pid.
          Triple-fact (λ g l h. sym h.1 ∙ at_root g l h.0)
            λ e. Triple-pre (λ g l h. h.0) (exit_if-Triple os root works I pid e)

module _ (os : Os) (root : ℤ) (works : ProcWorks os root) (timeout : ℕ)
    (available allocated : Bool) where
  -- The settings that the loop does not change.
  abbrev pub Settings : Globals → Type 0
  Settings g =
      (g.user_idle_timeout_ms ≡ timeout)
      × (g.xscreensaver_is_available ≡ available)
      × (g.x_display_open && g.xscreensaver_info_allocated ≡ allocated)

  -- What holds before a round.
  abbrev pub Ready : ℤ → Claim
  Ready sleep g l = IsTracked root g l × Settings g × (pos 100 ≤ℤ sleep)

  -- What holds after it: while monitoring, the command is paused exactly if the user was active.
  abbrev pub Looked : ℤ → ℕ → Claim
  Looked sleep idle g l =
      IsTracked root g l
      × Settings g
      × (pos 100 ≤ℤ sleep)
      × (g.monitoring_started ≡ true → g.command_paused ≡ ltb idle timeout)
      × (g.monitoring_started ≡ true → available ≡ false → idle ≡ idle_time_not_available_value)

  abbrev pub Left : Claim
  Left g l = (g.command_paused ≡ false) × (stopped root l ≡ false)

  abbrev pub AfterRound : Round Locals ℕ → Claim
  AfterRound (again x) = Looked x.sleep_time_ms x.user_idle_time_ms
  AfterRound (done c) = Left

  leave-Triple :
      Triple (IsEndCode os root) (IsTracked root) (leave_after_interruption os) (λ _. Left)
  unfolding leave_after_interruption
  leave-Triple =
      Triple-bind
        (record {
          run = λ s h.
              Wp-mono (interruption_leaves_running os root works s h) (λ c t q. (q.1, q.2))
                (λ c t q. q);
        })
        λ c. Triple-Silent (inl refl) (
          Silent-bind _ _ (Silent-when _ _ (Silent-emit _ (λ tr. refl))) λ _.
            Silent-bind _ _ (Silent-when _ _ (Silent-emit _ (λ tr. refl))) λ _.
              Silent-bind _ _ (Silent-gets _)
                λ fd. Silent-bind _ _ (Silent-emit _ (λ tr. refl)) λ _. Silent-pure _)

  start-Triple :
      (sleep : ℤ) (started : Timespec)
      → Triple
          (IsEndCode os root)
          (Ready sleep)
          (start_monitoring_if_due os started)
          (λ _. Ready sleep)
  unfolding start_monitoring_if_due
  start-Triple sleep started =
      Triple-when (λ g. not g.monitoring_started)
        (Triple-bind (Triple-Silent (inl refl) (Silent-ask _ _ (λ a tr. refl))) λ now.
          Triple-bind (Triple-Silent (inl refl) (Silent-when _ _ (Silent-stderr _ _))) λ _.
            Triple-when
              (λ g. not (ltb_ℤ (get_elapsed_time_ms started now) g.start_monitor_after_ms))
              (Triple-modify _ (λ g l h. (
                record {
                  root_is = h.0.0.0.root_is;
                  known = h.0.0.0.known;
                  flag = h.0.0.0.flag;
                  monitored = λ _. refl;
                },
                h.0.0.1,
                h.0.0.2,
              )))
              (λ g l h _. h.0))
        (λ g l h _. h)

  -- What holds when the idle time has been asked for.
  abbrev Queried : ℤ → ℕ → Claim
  Queried sleep idle g l =
      Ready sleep g l
      × (g.monitoring_started ≡ true → available ≡ false → idle ≡ idle_time_not_available_value)

  decided-Triple :
      (sleep : ℤ) (idle : ℕ)
      → Triple
          (IsEndCode os root)
          (λ g l. Queried sleep idle g l × (g.monitoring_started ≡ true))
          (pause_or_resume_command_depending_on_user_activity os sleep idle)
          (λ r. Looked r idle)
  decided-Triple sleep idle =
      Triple-fact
        {X = (pos 100 ≤ℤ sleep) × (available ≡ false → idle ≡ idle_time_not_available_value)}
        (λ g l h. (h.0.0.2, h.0.1 h.1))
        λ known.
          Triple-post
            (Triple-pre (λ g l h. (h.0.0.0, h.1, (h.0.0.1.0, (h.0.0.1.1, h.0.0.1.2))))
              (decide-Triple os root works
                (λ g.
                  (g.xscreensaver_is_available ≡ available)
                  × (g.x_display_open && g.xscreensaver_info_allocated ≡ allocated))
                (λ g b h. h) timeout sleep idle))
            (λ r g l h. (
              h.0.0,
              (h.0.2.0, h.0.2.1.0, h.0.2.1.1),
              ⊎_elim (λ k. subst (λ x. pos 100 ≤ℤ x) (sym k) known.0) (λ k. omega arith) h.2,
              λ _. h.1,
              λ _ a. known.1 a,
            ))

  Looked-stable : (sleep : ℤ) (idle : ℕ) → IsSignalStable (Looked sleep idle)
  Looked-stable sleep idle g l n b h = (
    record { root_is = h.0.root_is; known = h.0.known; flag = h.0.flag; monitored = h.0.monitored },
    h.1,
    h.2,
    h.3,
    h.4,
  )

  child_checked-Triple :
      (sleep : ℤ)
      → Triple
          (IsEndCode os root)
          (Ready sleep)
          (when
            (λ s. s.sigchld_received)
            (do modify (λ g. record g { sigchld_received = false }); check_finished os))
          (λ _. Ready sleep)
  child_checked-Triple sleep =
      Triple-when (λ g. g.sigchld_received)
        (Triple-bind_modify (Ready sleep) _ _
          (λ g l h. (
            record {
              root_is = h.0.0.root_is;
              known = h.0.0.known;
              flag = h.0.0.flag;
              monitored = h.0.0.monitored;
            },
            h.0.1,
            h.0.2,
          ))
          (check-Triple os root works _ (λ g l h. h.0.root_is)))
        (λ g l h _. h)

  rest_of_round-Triple :
      (x : Locals) (idle : ℕ)
      → Triple
          (IsEndCode os root)
          (Queried x.sleep_time_ms idle)
          (do
            check_finished os
            sleep ←
                branch
                  (λ s. s.monitoring_started)
                  (pause_or_resume_command_depending_on_user_activity os x.sleep_time_ms idle)
                  (pure x.sleep_time_ms)
            when (λ s. s.debug) (fprintf_stderr "Sleeping for %lldms\n" (Arg.num sleep ∷ []))
            sleep_for_ms_with_signalfd os (sleep_time_int sleep)
            pure (again (record x { sleep_time_ms = sleep; user_idle_time_ms = idle })))
          AfterRound
  rest_of_round-Triple x idle =
      Triple-bind (check-Triple os root works _ (λ g l h. h.0.0.root_is)) λ _.
        Triple-bind {J = λ r. Looked r idle}
          (Triple-branch (λ g. g.monitoring_started) (decided-Triple x.sleep_time_ms idle)
            (Triple-pure _ (λ g l h.
              (h.0.0.0, h.0.0.1, h.0.0.2, λ m. absurd (false≢true (sym h.1 ∙ m)), h.0.1))))
          λ r. Triple-bind (Triple-Silent (inl refl) (Silent-when _ _ (Silent-stderr _ _))) λ _.
            Triple-bind
              (sleep-Triple (Looked r idle) (Looked-stable r idle) os (IsEndCode os root) (inl refl)
                (sleep_time_int r))
              λ _. Triple-pure _ (λ g l h. h)

  -- `C` is what holds where a pointer is NULL when it is used.
  module _ (C : Type 0) (null : available ≡ true → allocated ≡ false → C) where
    query-Partial :
        (sleep : ℤ)
        → Partial C (IsEndCode os root) (Ready sleep) (query_user_idle_time os) (λ idle g l.
          Ready sleep g l × (available ≡ false → idle ≡ idle_time_not_available_value))
    unfolding query_user_idle_time
    query-Partial sleep =
        Partial-branch (λ g. g.xscreensaver_is_available)
          (Partial-branch (λ g. g.x_display_open && g.xscreensaver_info_allocated)
            (Triple-Partial (
              Triple-post (Triple-Silent (inl refl) (Silent-ask _ _ (λ a tr. refl))) (λ idle g l h.
                (h.0.0, λ none_. absurd (false≢true (sym none_ ∙ sym h.0.0.1.1 ∙ h.0.1))))))
            (Partial-crash (λ g l h. null (sym h.0.0.1.1 ∙ h.0.1) (sym h.0.0.1.2 ∙ h.1))))
          (Triple-Partial (Triple-pure _ (λ g l h. (h.0, λ _. refl))))

    pub round-Partial :
        (x : Locals)
        → Partial C (IsEndCode os root) (Ready x.sleep_time_ms) (poll_round os x) AfterRound
    unfolding poll_round
    round-Partial x =
        Partial-branch (λ g. not (g.interruption_received == 0))
          (Triple-Partial (
            Triple-bind (Triple-pre (λ g l h. h.0.0) leave-Triple) λ c. Triple-pure _ (λ g l h. h)))
          (Partial-pre (λ g l h. h.0)
            (Partial-bind {J = λ _. Ready x.sleep_time_ms}
              (Triple-Partial (child_checked-Triple x.sleep_time_ms))
              λ _.
                Partial-bind
                  (Triple-Partial (start-Triple x.sleep_time_ms x.time_when_command_started))
                  λ _.
                    Partial-bind {J = λ idle. Queried x.sleep_time_ms idle}
                      (Partial-branch (λ g. g.monitoring_started)
                        (Partial-post (Partial-pre (λ g l h. h.0) (query-Partial x.sleep_time_ms))
                          (λ idle g l h. (h.0, λ _. h.1)))
                        (Triple-Partial
                          (Triple-pure _ (λ g l h. (h.0, λ m. absurd (false≢true (sym h.1 ∙ m)))))))
                      λ idle. Triple-Partial (rest_of_round-Triple x idle)))

  -- After a signal, the round is the last.
  pub leaving-Wp :
      (x : Locals) (s : State)
      → IsTracked root s.globals (signals s.trace)
      → s.interruption_received ≢ 0
      → Wp (poll_round os x) (LastRound (λ _. Holds Left)) (λ c t. IsEndCode os root c) s
  unfolding poll_round
  leaving-Wp x s tracked received =
      Wp-branch _ _ _
        (λ _. Wp-bind (leave-Triple.run s tracked) (λ c t h. Wp-pure (done c) h) (λ c t h. h))
        (λ e. absurd (received (ground arith)))
