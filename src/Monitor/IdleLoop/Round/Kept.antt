-- ===== src/Monitor/IdleLoop/Round/Kept.antt =====
-- A round of the event loop, and all the rounds that are reached.
use runwhenidle.Prelude.{
  ℕ, ◌≡◌, refl, sym, inl, inr, Bool, true, false, not, Option, none, some, ◌||◌, ◌==◌, arith,
}
use runwhenidle.Prelude.Int.{ℤ, pos, ◌≤ℤ◌}
use runwhenidle.System.{
  Os, State, Revents, Polled, poll_failed, polled, signals, Wp-mono, Rounds, Rounds-keep, Triple,
  Triple-pre, Triple-pure, Triple-bind, Triple-bind_gets, Triple-branch, Triple-when,
  Triple-bind_modify, Silent-error, Silent-ask, Silent-when, Silent-stderr,
}
use runwhenidle.Process.Table.Snapshot.{ProcWorks}
use runwhenidle.Process.Signals.Tree.{stopped}
use runwhenidle.Monitor.Invariant.{IsTracked, IsEndCode}
use runwhenidle.Monitor.Signals.Leaving.{interruption_leaves_running}
use runwhenidle.Monitor.Signals.Receiving.{process_signalfd-Triple}
use runwhenidle.Monitor.X11.Polling.{check-Triple}
use runwhenidle.Descriptors.{eintr, eagain}
use runwhenidle.Descriptors.Silence.{ReadsAtOnce}
use runwhenidle.Wayland.{is_null}
use runwhenidle.Wayland.Notification.{call_display-Silent}
use runwhenidle.Monitor.IdleLoop.Locals.{LoopLocals, poll_file_descriptors}
use runwhenidle.Monitor.IdleLoop.Watching.{
  IsWatching, Watched, AfterRound, IsWatching-pending, Watched-stable, quietly, leave_lost-Triple,
  leave_invalid-Triple,
}
use runwhenidle.Monitor.IdleLoop.Stages.{start_monitor_stage}
use runwhenidle.Monitor.IdleLoop.Stages.Dispatch.{dispatch_by-Triple}
use runwhenidle.Monitor.IdleLoop.Stages.Kept.{start_monitor-Triple}
use runwhenidle.Monitor.IdleLoop.Round.{
  after_writable_flush, connection_stage, after_poll, poll_stage, after_flush,
  after_dispatch_pending, idle_loop_round,
}

module _ (os : Os) (root : ℤ) (works : ProcWorks os root) (at_once : ReadsAtOnce os)
    (display : Option ℕ) (there : is_null display ≡ false) (retries : ℕ) where
  start_with_pending-Triple :
      (l : LoopLocals) (b : Bool) (rs : ℕ → Revents)
      → Triple
          (IsEndCode os root)
          (Watched root l)
          (start_monitor_stage os display retries (record l { wayland_flush_is_pending = b }) rs)
          (AfterRound root)
  start_with_pending-Triple l b rs =
      Triple-pre (λ g ss h. (h.0, IsWatching-pending l b g h.1))
        (start_monitor-Triple os root works at_once display there retries _ rs)

  writable_flush-Triple :
      (l : LoopLocals) (rs : ℕ → Revents) (failed : Option ℕ)
      → Triple
          (IsEndCode os root)
          (Watched root l)
          (after_writable_flush os display retries l rs failed)
          (AfterRound root)
  unfolding after_writable_flush
  writable_flush-Triple l rs none = start_with_pending-Triple l false rs
  writable_flush-Triple l rs (some errno) =
      Triple-branch (λ _. errno == eagain)
        (Triple-pre (λ g ss h. h.0) (start_with_pending-Triple l true rs))
        (Triple-branch (λ _. errno == eintr)
          (Triple-pre (λ g ss h. h.0.0)
            (start_monitor-Triple os root works at_once display there retries l rs))
          (Triple-pre (λ g ss h. h.0.0.0) (leave_lost-Triple os root _ errno l)))

  connection-Triple :
      (l : LoopLocals) (rs : ℕ → Revents)
      → Triple
          (IsEndCode os root)
          (Watched root l)
          (connection_stage os display retries l rs)
          (AfterRound root)
  unfolding connection_stage
  connection-Triple l rs =
      Triple-branch (λ _. (rs 0).pollnval)
        (Triple-pre (λ g ss h. h.0.0) (leave_invalid-Triple os root _ l))
        (Triple-branch (λ _. (rs 0).pollhup || (rs 0).pollerr)
          (quietly os root (Silent-error _ _ _) λ _. Triple-pure _ (λ g ss h. h.0.0.0))
          (Triple-branch (λ _. (rs 0).pollout)
            (Triple-pre (λ g ss h. h.0.0.0)
              (quietly os root (call_display-Silent os.wayland.flush display there)
                λ failed. writable_flush-Triple l rs failed))
            (Triple-pre (λ g ss h. h.0.0.0)
              (start_monitor-Triple os root works at_once display there retries l rs))))

  after_poll-Triple :
      (l : LoopLocals) (answer : Polled)
      → Triple
          (IsEndCode os root)
          (Watched root l)
          (after_poll os display retries l answer)
          (AfterRound root)
  unfolding after_poll
  after_poll-Triple l (poll_failed errno) =
      Triple-branch (λ _. errno == eintr) (Triple-pure _ (λ g ss h. h.0))
        (quietly os root (Silent-error _ _ _) λ _. Triple-pure _ (λ g ss h. inl (refl, h.0.0)))
  after_poll-Triple l (polled n rs) =
      Triple-bind {J = λ _. Watched root l}
        (Triple-when (λ _. (rs 2).pollin)
          (Triple-pre (λ g ss h. h.0)
            (process_signalfd-Triple (Watched root l) (Watched-stable root l) os (IsEndCode os root)
              (inl refl)))
          (λ g ss h _. h))
        (λ _. connection-Triple l rs)

  poll-Triple :
      (l : LoopLocals)
      → Triple
          (IsEndCode os root)
          (Watched root l)
          (poll_stage os display retries l)
          (AfterRound root)
  unfolding poll_stage
  poll-Triple l =
      Triple-bind_gets (λ g. poll_file_descriptors g.signal_fd l)
        λ descriptors.
          Triple-pre (λ g ss h. h.0)
            (quietly os root (Silent-ask _ _ (λ a tr. refl)) λ answer.
              quietly os root (Silent-when _ _ (Silent-stderr _ _)) λ _. after_poll-Triple l answer)

  flush-Triple :
      (l : LoopLocals) (failed : Option ℕ)
      → Triple
          (IsEndCode os root)
          (Watched root l)
          (after_flush os display retries l failed)
          (AfterRound root)
  unfolding after_flush
  flush-Triple l none =
      Triple-pre (λ g ss h. (h.0, IsWatching-pending l false g h.1)) (poll-Triple _)
  flush-Triple l (some errno) =
      Triple-branch (λ _. errno == eagain)
        (Triple-pre (λ g ss h. (h.0.0, IsWatching-pending l true g h.0.1)) (poll-Triple _))
        (Triple-branch (λ _. errno == eintr) (Triple-pure _ (λ g ss h. h.0.0))
          (Triple-pre (λ g ss h. h.0.0.0) (leave_lost-Triple os root _ errno l)))

  dispatch_pending-Triple :
      (l : LoopLocals) (failed : Option ℕ)
      → Triple
          (IsEndCode os root)
          (Watched root l)
          (after_dispatch_pending os display retries l failed)
          (AfterRound root)
  unfolding after_dispatch_pending
  dispatch_pending-Triple l none =
      quietly os root (call_display-Silent os.wayland.flush display there)
        λ failed. flush-Triple l failed
  dispatch_pending-Triple l (some errno) =
      Triple-branch (λ _. errno == eintr) (Triple-pure _ (λ g ss h. h.0))
        (Triple-pre (λ g ss h. h.0.0) (leave_lost-Triple os root _ errno l))

  pub idle_round-Triple :
      (l : LoopLocals)
      → Triple
          (IsEndCode os root)
          (Watched root l)
          (idle_loop_round os display retries l)
          (AfterRound root)
  unfolding idle_loop_round
  idle_round-Triple l =
      Triple-branch (λ g. not (g.interruption_received == 0))
        (Triple-bind {J = λ _ g ss. (g.command_paused ≡ false) × (stopped root ss ≡ false)}
          (record {
            run = λ s h.
                Wp-mono (interruption_leaves_running os root works s h.0.0) (λ c t q. (q.1, q.2))
                  (λ c t q. q);
          })
          λ c. Triple-pure _ (λ g ss h. inr (omega arith, h.0, h.1)))
        (Triple-pre (λ g ss h. h.0)
          (Triple-bind {J = λ _. Watched root l}
            (Triple-when (λ g. g.sigchld_received)
              (Triple-bind_modify (Watched root l) _ _
                (λ g ss h. Watched-stable root l g ss g.interruption_received false h.0)
                (check-Triple os root works _ (λ g ss h. h.0.root_is)))
              (λ g ss h _. h))
            λ _.
              Triple-bind
                (dispatch_by-Triple os root works l display os.wayland.dispatch_pending there)
                (λ failed. dispatch_pending-Triple l failed)))

-- With a working /proc, reads of timers that do not block, and a display that is not NULL, from a
-- state in which the invariant and IsWatching hold: at the start of every round that is reached after the first one, the variable says what the signals sent have done
-- to the command, and the command is not paused before monitoring has started. Until then the
-- descriptor of the timer that starts it is not negative, and the one for poll() is the one
-- that will be read; from then on the variable for the idle notification is not NULL. That the
-- timer expires, or that the compositor says anything, is not stated.
pub idle_loop_tracks :
    (os : Os) (root : ℤ) (works : ProcWorks os root) (at_once : ReadsAtOnce os) (display : Option ℕ)
    (there : is_null display ≡ false) (retries : ℕ) (x y : LoopLocals) (s t : State)
    → IsTracked root s.globals (signals s.trace)
    → IsWatching x s.globals
    → Rounds (idle_loop_round os display retries) x s y t
    → (stopped root (signals t.trace) ≡ t.command_paused)
      × (t.command_paused ≡ true → t.monitoring_started ≡ true)
      × (t.monitoring_started ≡ false
          → (pos 0 ≤ℤ y.start_monitor_polled)
            × (y.start_monitor_polled ≡ y.start_monitor_timer_file_descriptor))
      × (t.monitoring_started ≡ true → is_null t.wayland.wayland_idle_notification ≡ false)
idle_loop_tracks os root works at_once display there retries x y s t tracked watching path =
    let h =
      Rounds-keep (Watched root) (AfterRound root)
        (idle_round-Triple os root works at_once display there retries) (λ z u k. k) path
        (tracked, watching) in
    (sym h.0.flag, h.0.monitored, λ e. (h.1.timer_polled e, h.1.same_timer e), h.1.notified)
