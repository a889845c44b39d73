-- ===== src/Monitor/IdleLoop/Stages/Kept.antt =====
-- The stages of a round after poll() keep what holds between rounds, or leave the loop with it.
use runwhenidle.Prelude.{
  ℕ, ◌≡◌, refl, sym, ◌∙◌, inl, true, false, not, Option, none, some, List, ◌&&◌, ◌||◌, ◌==◌,
}
use mathlib.Core.Bool.{false≢true}
use runwhenidle.Prelude.Int.{ℤ, pos, ltb_ℤ}
use runwhenidle.System.{
  Os, Globals, Claim, Revents, Triple, Triple-pre, Triple-post, Triple-pure, Triple-bind,
  Triple-branch, Triple-when, Triple-bind_modify, Silent-error,
}
use runwhenidle.Process.Table.Snapshot.{ProcWorks}
use runwhenidle.Monitor.Invariant.{IsTracked, IsEndCode}
use runwhenidle.Monitor.Activity.Tracking.{pause_running-Triple}
use runwhenidle.Monitor.X11.Polling.{check-Triple}
use runwhenidle.Descriptors.{eintr, eagain}
use runwhenidle.Descriptors.Silence.{ReadsAtOnce, close-Silent, consume-Silent}
use runwhenidle.Wayland.{is_null}
use runwhenidle.Wayland.Notification.{IsConnected, start_notification-Triple}
use runwhenidle.Monitor.IdleLoop.Locals.{LoopLocals}
use runwhenidle.Monitor.IdleLoop.Watching.{
  IsWatching, Watched, AfterRound, IsWatching-stable, quietly, leave_lost-Triple,
  leave_invalid-Triple,
}
use runwhenidle.Monitor.IdleLoop.Stages.{
  after_dispatch, display_stage, fallback_due, fallback_stage, process_exit_stage, after_start,
  start_monitoring, start_monitor_stage,
}
use runwhenidle.Monitor.IdleLoop.Stages.Dispatch.{dispatch_by-Triple}

-- After the timer has expired, before an idle notification has been asked for.
abbrev Begun : ℤ → Claim
Begun root g ss = IsTracked root g ss × IsConnected g.wayland × (g.monitoring_started ≡ true)

module _ (os : Os) (root : ℤ) (works : ProcWorks os root) (at_once : ReadsAtOnce os)
    (display : Option ℕ) (there : is_null display ≡ false) (retries : ℕ) where
  after_dispatch-Triple :
      (l : LoopLocals) (failed : Option ℕ)
      → Triple
          (IsEndCode os root)
          (Watched root l)
          (after_dispatch os display retries l failed)
          (AfterRound root)
  unfolding after_dispatch
  after_dispatch-Triple l none = Triple-pure _ (λ g ss h. h)
  after_dispatch-Triple l (some errno) =
      Triple-branch (λ _. errno == eintr || errno == eagain) (Triple-pure _ (λ g ss h. h.0))
        (Triple-pre (λ g ss h. h.0.0) (leave_lost-Triple os root _ errno l))

  display-Triple :
      (l : LoopLocals) (r : Revents)
      → Triple
          (IsEndCode os root)
          (Watched root l)
          (display_stage os display retries l r)
          (AfterRound root)
  unfolding display_stage
  display-Triple l r =
      Triple-branch (λ _. r.pollin)
        (Triple-pre (λ g ss h. h.0)
          (Triple-bind (dispatch_by-Triple os root works l display os.wayland.dispatch there)
            (λ failed. after_dispatch-Triple l failed)))
        (Triple-pure _ (λ g ss h. h.0))

  fallback_due-Triple :
      (l : LoopLocals) (r : Revents)
      → Triple
          (IsEndCode os root)
          (Watched root l)
          (fallback_due os display retries l r)
          (AfterRound root)
  unfolding fallback_due
  fallback_due-Triple l r = quietly os root (consume-Silent os at_once _ retries _) λ result.
      Triple-branch (λ _. ltb_ℤ result (pos 0)) (Triple-pure _ (λ g ss h. inl (refl, h.0.0)))
        (Triple-pre (λ g ss h. h.0)
          (Triple-bind (check-Triple os root works _ (λ g ss h. h.0.root_is))
            (λ _. display-Triple l r)))

  fallback-Triple :
      (l : LoopLocals) (rs : ℕ → Revents) (index : Option ℕ)
      → Triple
          (IsEndCode os root)
          (Watched root l)
          (fallback_stage os display retries l rs index)
          (AfterRound root)
  unfolding fallback_stage
  fallback-Triple l rs none = display-Triple l (rs 0)
  fallback-Triple l rs (some i) =
      Triple-branch (λ _. (rs i).pollnval)
        (Triple-pre (λ g ss h. h.0.0) (leave_invalid-Triple os root _ l))
        (Triple-branch (λ _. (rs i).pollerr)
          (Triple-pre (λ g ss h. h.0.0.0) (leave_invalid-Triple os root _ l))
          (Triple-branch (λ _. (rs i).pollin)
            (Triple-pre (λ g ss h. h.0.0.0) (fallback_due-Triple l (rs 0)))
            (Triple-pre (λ g ss h. h.0.0.0) (display-Triple l (rs 0)))))

  process_exit-Triple :
      (l : LoopLocals) (rs : ℕ → Revents) (index : Option ℕ)
      → Triple
          (IsEndCode os root)
          (Watched root l)
          (process_exit_stage os display retries l rs index)
          (AfterRound root)
  unfolding process_exit_stage
  process_exit-Triple l rs none = fallback-Triple l rs _
  process_exit-Triple l rs (some i) =
      Triple-branch (λ _. (rs i).pollnval)
        (Triple-pre (λ g ss h. h.0.0) (leave_invalid-Triple os root _ l))
        (Triple-pre (λ g ss h. h.0)
          (Triple-bind {J = λ _. Watched root l}
            (Triple-when (λ _. (rs i).pollin || (rs i).pollhup || (rs i).pollerr)
              (Triple-pre (λ g ss h. h.0) (check-Triple os root works _ (λ g ss h. h.0.root_is)))
              (λ g ss h _. h))
            (λ _. fallback-Triple l rs _)))

  -- With a notification, or with what it returned saying that there is none.
  after_start-Triple :
      (l : LoopLocals) (rs : ℕ → Revents) (result : ℤ)
      → Triple
          (IsEndCode os root)
          (λ g ss.
            Begun root g ss
            × (ltb_ℤ result (pos 0) ≡ false → is_null g.wayland.wayland_idle_notification ≡ false))
          (after_start os display retries l rs result)
          (AfterRound root)
  unfolding after_start
  after_start-Triple l rs result =
      Triple-branch (λ _. ltb_ℤ result (pos 0))
        (quietly os root (Silent-error _ _ _) λ _. Triple-pure _ (λ g ss h. h.0.0.0))
        (Triple-bind {J = λ _. Watched root l}
          (Triple-when (λ g. not g.command_paused)
            (Triple-post
              (Triple-pre (λ g ss h. (h.0.0.0.0, h.0.0.0.2, watching l g ss h.0))
                (pause_running-Triple os root works (IsWatching l) (IsWatching-stable l)))
              (λ _ g ss h. (h.0, h.2)))
            (λ g ss h _. (h.0.0.0, watching l g ss h)))
          (λ _. process_exit-Triple l rs _))
    where
      watching :
          (l : LoopLocals) (g : Globals) (ss : List (ℤ × ℕ))
          → ((Begun root g ss
                × (ltb_ℤ result (pos 0) ≡ false
                    → is_null g.wayland.wayland_idle_notification ≡ false))
              × (ltb_ℤ result (pos 0) ≡ false))
          → IsWatching l g
      watching l g ss h = record {
        connected = h.0.0.1;
        timer_polled = λ e. absurd (false≢true (sym e ∙ h.0.0.2));
        same_timer = λ e. absurd (false≢true (sym e ∙ h.0.0.2));
        notified = λ _. h.0.1 h.1;
      }

  start_monitoring-Triple :
      (l : LoopLocals) (rs : ℕ → Revents)
      → Triple
          (IsEndCode os root)
          (Watched root l)
          (start_monitoring os display retries l rs)
          (AfterRound root)
  unfolding start_monitoring
  start_monitoring-Triple l rs = quietly os root (consume-Silent os at_once _ retries _) λ result.
      Triple-branch (λ _. ltb_ℤ result (pos 0)) (Triple-pure _ (λ g ss h. inl (refl, h.0.0)))
        (quietly os root (close-Silent os _ _) λ closed.
          Triple-bind_modify (Begun root) _ _
            (λ g ss h. (
              record {
                root_is = h.0.0.root_is;
                known = h.0.0.known;
                flag = h.0.0.flag;
                monitored = λ _. refl;
              },
              h.0.1.connected,
              refl,
            ))
            (Triple-bind
              (start_notification-Triple os (IsEndCode os root) (inl refl) (Begun root)
                (λ g ss n h. (
                  record {
                    root_is = h.0.root_is;
                    known = h.0.known;
                    flag = h.0.flag;
                    monitored = h.0.monitored;
                  },
                  record {
                    has_display = h.1.has_display;
                    has_registry = h.1.has_registry;
                    has_seat = h.1.has_seat;
                    has_notifier = h.1.has_notifier;
                    available = h.1.available;
                  },
                  h.2,
                ))
                (λ g ss h. h.1))
              (λ started. after_start-Triple _ rs started)))

  pub start_monitor-Triple :
      (l : LoopLocals) (rs : ℕ → Revents)
      → Triple
          (IsEndCode os root)
          (Watched root l)
          (start_monitor_stage os display retries l rs)
          (AfterRound root)
  unfolding start_monitor_stage
  start_monitor-Triple l rs =
      Triple-branch (λ g. not g.monitoring_started && not (ltb_ℤ l.start_monitor_polled (pos 0)))
        (Triple-pre (λ g ss h. h.0)
          (Triple-branch (λ _. (rs 1).pollnval)
            (Triple-pre (λ g ss h. h.0.0) (leave_invalid-Triple os root _ l))
            (Triple-branch (λ _. (rs 1).pollerr)
              (Triple-pre (λ g ss h. h.0.0.0) (leave_invalid-Triple os root _ l))
              (Triple-branch (λ _. (rs 1).pollin)
                (Triple-pre (λ g ss h. h.0.0.0) (start_monitoring-Triple l rs))
                (Triple-pre (λ g ss h. h.0.0.0) (process_exit-Triple l rs _))))))
        (Triple-pre (λ g ss h. h.0) (process_exit-Triple l rs _))
