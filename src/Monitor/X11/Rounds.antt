-- ===== src/Monitor/X11/Rounds.antt =====
-- The polling loop over all its rounds.
use runwhenidle.Prelude.{
  ℕ, suc, ◌≢◌, ◌<◌, ◌^◌, ◌≡◌, refl, sym, ap, ◌∙◌, inl, inr, true, false, arith, ltb, ◌&&◌,
  Bool-cases, not_before,
}
use mathlib.Core.Bool.{false≢true}
use runwhenidle.Prelude.Int.{ℤ, pos, ◌≤ℤ◌}
use runwhenidle.System.{
  Os, State, signals, Rounds, Rounds-Partial, Partial-Triple, LoopWp, LoopWp-bind, LoopWp-mono,
  forever-keep, forever-last, Claim, Triple-Silent, Silent-ask, Silent-when, Silent-branch,
  Silent-stderr, Wp, forever,
}
use runwhenidle.Process.Table.Snapshot.{ProcWorks}
use runwhenidle.Process.Signals.Tree.{stopped}
use runwhenidle.Monitor.Invariant.{IsTracked, IsEndCode}
use runwhenidle.Monitor.X11.{Locals, poll_round, poll_loop}
use runwhenidle.Monitor.X11.Polling.{leaving-Wp, Ready, Looked, AfterRound, round-Partial}

pub Looked-reached :
    (os : Os) (root : ℤ) (works : ProcWorks os root) (x y : Locals) (s t : State)
    → IsTracked root s.globals (signals s.trace)
    → pos 100 ≤ℤ x.sleep_time_ms
    → Rounds (poll_round os) x s y t
    → Looked os root works s.user_idle_timeout_ms s.xscreensaver_is_available
        (s.x_display_open && s.xscreensaver_info_allocated)
        y.sleep_time_ms
        y.user_idle_time_ms
        t.globals
        (signals t.trace)
Looked-reached os root works x y s t tracked awake path =
    Rounds-Partial
      (λ z.
        Ready os root works s.user_idle_timeout_ms s.xscreensaver_is_available
          (s.x_display_open && s.xscreensaver_info_allocated) z.sleep_time_ms)
      (AfterRound os root works s.user_idle_timeout_ms s.xscreensaver_is_available
        (s.x_display_open && s.xscreensaver_info_allocated))
      (round-Partial os root works s.user_idle_timeout_ms s.xscreensaver_is_available
        (s.x_display_open && s.xscreensaver_info_allocated) (Unit {0}) (λ _ _. tt))
      (λ z u k. (k.0, k.1, k.2)) path (tracked, (refl, refl, refl), awake)

-- With a working /proc, from a state in which the invariant holds and with at least 100 ms to
-- the next look: at the start of every round that is reached after the first one, the variable
-- says what the signals sent have done to the command; it is paused exactly if the user had been
-- idle for less than the timeout at the last look, where monitoring has started, and not paused
-- where it has not. The time to the next look is at least 100 ms again.
pub polling_tracks :
    (os : Os) (root : ℤ) (works : ProcWorks os root) (x y : Locals) (s t : State)
    → IsTracked root s.globals (signals s.trace)
    → pos 100 ≤ℤ x.sleep_time_ms
    → Rounds (poll_round os) x s y t
    → (stopped root (signals t.trace) ≡ t.command_paused)
      × (t.monitoring_started ≡ true
          → t.command_paused ≡ ltb y.user_idle_time_ms s.user_idle_timeout_ms)
      × (t.monitoring_started ≡ false → t.command_paused ≡ false)
      × (pos 100 ≤ℤ y.sleep_time_ms)
polling_tracks os root works x y s t tracked awake path =
    let h = Looked-reached os root works x y s t tracked awake path in
    (sym h.0.flag, h.3, not_before _ _ h.0.monitored, h.2)

-- With a working /proc, from a state in which the invariant holds, with at least 100 ms to the
-- next look, and with a timeout that fits an unsigned long: where no idle time can be had, the
-- command is not paused at the start of any round that is reached after the first one.
pub never_paused_without_idle_time :
    (os : Os) (root : ℤ) (works : ProcWorks os root) (x y : Locals) (s t : State)
    → IsTracked root s.globals (signals s.trace)
    → pos 100 ≤ℤ x.sleep_time_ms
    → s.xscreensaver_is_available ≡ false
    → s.user_idle_timeout_ms < 2 ^ 64
    → Rounds (poll_round os) x s y t
    → (t.command_paused ≡ false) × (stopped root (signals t.trace) ≡ false)
never_paused_without_idle_time os root works x y s t tracked awake unavailable small path =
    let h = Looked-reached os root works x y s t tracked awake path in
    let running : t.command_paused ≡ false = elim (Bool-cases t.monitoring_started) [
      | inl m ↦ h.3 m ∙ ap (λ n. ltb n s.user_idle_timeout_ms) (h.4 m unavailable) ∙ ground arith
      | inr m ↦ not_before _ _ h.0.monitored m
    ] in
    (running, sym h.0.flag ∙ running)

-- With a working /proc, from a state in which the invariant holds, where the display is open and
-- the structure for the idle time allocated if XScreenSaver is available, and for any number of rounds: the loop
-- returns with the command running, or ends the program with 1 or the code that goes
-- with the command's end, or is still polling when the rounds are over, in a state in which the
-- invariant holds. It does not crash.
pub poll_loop_outcome :
    (os : Os) (root : ℤ) (works : ProcWorks os root) (rounds : ℕ) (s : State)
    → IsTracked root s.globals (signals s.trace)
    → (s.xscreensaver_is_available ≡ true
        → s.x_display_open && s.xscreensaver_info_allocated ≡ true)
    → LoopWp
        (poll_loop os rounds)
        (λ (y : Locals) t.
          IsTracked root t.globals (signals t.trace) × (pos 100 ≤ℤ y.sleep_time_ms))
        (λ _ t. (t.command_paused ≡ false) × (stopped root (signals t.trace) ≡ false))
        (IsEndCode os root)
        s
unfolding poll_loop
poll_loop_outcome os root works rounds s tracked allocated =
    LoopWp-bind
      ((Triple-Silent {E = IsEndCode os root} (inl refl) {I = Start}
          (Silent-ask _ _ (λ a tr. refl))).run
        s (tracked, refl, refl, refl))
      (λ started t h.
        LoopWp-bind
          ((Triple-Silent {E = IsEndCode os root} (inl refl) {I = Start}
              (Silent-when _ _ (Silent-branch _ _ _ (Silent-stderr _ _) (Silent-stderr _ _)))).run
            t h)
          (λ _ u k.
            LoopWp-mono
              (forever-keep
                (λ z.
                  Ready os root works s.user_idle_timeout_ms s.xscreensaver_is_available
                    (s.x_display_open && s.xscreensaver_info_allocated) z.sleep_time_ms)
                (AfterRound os root works s.user_idle_timeout_ms s.xscreensaver_is_available
                  (s.x_display_open && s.xscreensaver_info_allocated))
                (λ z. Partial-Triple (
                  round-Partial os root works s.user_idle_timeout_ms s.xscreensaver_is_available
                    (s.x_display_open && s.xscreensaver_info_allocated) ⊥
                    (λ a e. absurd (false≢true (sym e ∙ allocated a))) z))
                (λ z v q. (q.0, q.1, q.2)) rounds _ u (k.0, (k.1, k.2, k.3), ground arith))
              (λ z v q. (q.0, q.2)) (λ c v q. q)))
  where
    Start : Claim
    Start g l =
        IsTracked root g l
        × (g.user_idle_timeout_ms ≡ s.user_idle_timeout_ms)
        × (g.xscreensaver_is_available ≡ s.xscreensaver_is_available)
        × (g.x_display_open && g.xscreensaver_info_allocated
            ≡ s.x_display_open && s.xscreensaver_info_allocated)

-- With a working /proc, from a state in which the invariant holds and a signal has been
-- received: one round is enough for the loop to return with the command running, or to end the
-- program with 1 or the code that goes with the command's end.
pub polling_ends_on_signal :
    (os : Os) (root : ℤ) (works : ProcWorks os root) (more_rounds : ℕ) (x : Locals) (s : State)
    → IsTracked root s.globals (signals s.trace)
    → s.interruption_received ≢ 0
    → Wp
        (forever (suc more_rounds) (poll_round os) x)
        (λ _ t. (t.command_paused ≡ false) × (stopped root (signals t.trace) ≡ false))
        (λ c t. IsEndCode os root c)
        s
polling_ends_on_signal os root works more_rounds x s tracked received =
    forever-last _ _ (poll_round os) more_rounds (
      leaving-Wp os root works s.user_idle_timeout_ms s.xscreensaver_is_available
        (s.x_display_open && s.xscreensaver_info_allocated) x s tracked received)
