-- ===== src/Monitor/IdleLoop/Watching.antt =====
-- What holds between the rounds of the event loop.
use runwhenidle.Prelude.{ℕ, ◌≡◌, refl, inl, ◌⊎◌, Bool, true, false, String}
use runwhenidle.Prelude.Int.{ℤ, pos, negsuc, ◌≤ℤ◌}
use runwhenidle.System.{
  Os, Globals, Claim, Prog, Triple, Triple-Silent, Triple-pure, Triple-bind, Silent, Silent-error,
  ◌>>=◌, again, done,
}
use runwhenidle.Process.Signals.Tree.{stopped}
use runwhenidle.Monitor.Invariant.{IsTracked, IsEndCode}
use runwhenidle.Monitor.Signals.Receiving.{IsSignalStable}
use runwhenidle.Monitor.Activity.Tracking.{IsStable}
use runwhenidle.Wayland.{is_null}
use runwhenidle.Wayland.Notification.{IsConnected}
use runwhenidle.Monitor.IdleLoop.Locals.{
  LoopLocals, LoopExit, cleanup, lost, Next, leave_lost, leave_invalid,
}

-- Before the start of monitoring, the descriptor of the timer for it stands in the array for poll() and
-- is the one that is read; after it, there is an idle notification. Whether the timer ever expires is
-- not said: one that is set to 0 ms does not.
pub record IsWatching (l : LoopLocals) (g : Globals) : Type 0 where
  pub connected : IsConnected g.wayland
  pub timer_polled : g.monitoring_started ≡ false → pos 0 ≤ℤ l.start_monitor_polled
  pub same_timer :
      g.monitoring_started ≡ false → l.start_monitor_polled ≡ l.start_monitor_timer_file_descriptor
  pub notified : g.monitoring_started ≡ true → is_null g.wayland.wayland_idle_notification ≡ false

-- The loop has been left by the label: it failed, or a signal has ended it with the command running.
abbrev pub CleanedUp : ℤ → ℤ → Claim
CleanedUp root result g l =
    ((result ≡ negsuc 0) × IsTracked root g l)
    ⊎ ((pos 0 ≤ℤ result) × (g.command_paused ≡ false) × (stopped root l ≡ false))

module _ (root : ℤ) where
  abbrev pub Watched : LoopLocals → Claim
  Watched l g ss = IsTracked root g ss × IsWatching l g

  abbrev pub Left : LoopExit → Claim
  Left (cleanup result) = CleanedUp root result
  Left lost = IsTracked root

  abbrev pub AfterRound : Next → Claim
  AfterRound (again l) = Watched l
  AfterRound (done (l, e)) = Left e

pub IsWatching-stable : (l : LoopLocals) → IsStable (IsWatching l)
IsWatching-stable l g b h = record {
  connected = h.connected;
  timer_polled = h.timer_polled;
  same_timer = h.same_timer;
  notified = h.notified;
}

pub Watched-stable : (root : ℤ) (l : LoopLocals) → IsSignalStable (Watched root l)
Watched-stable root l g ss n b h = (
  record { root_is = h.0.root_is; known = h.0.known; flag = h.0.flag; monitored = h.0.monitored },
  record {
    connected = h.1.connected;
    timer_polled = h.1.timer_polled;
    same_timer = h.1.same_timer;
    notified = h.1.notified;
  },
)

-- Whether a flush is pending is of no importance.
pub IsWatching-pending :
    (l : LoopLocals) (b : Bool) (g : Globals)
    → IsWatching l g
    → IsWatching (record l { wayland_flush_is_pending = b }) g
IsWatching-pending l b g h = record {
  connected = h.connected;
  timer_polled = h.timer_polled;
  same_timer = h.same_timer;
  notified = h.notified;
}

module _ (os : Os) (root : ℤ) where
  -- Before what follows, something that only prints or asks.
  pub quietly :
      {A B : Type 0} {I : Claim} {m : Prog A} {f : A → Prog B} {K : B → Claim}
      → Silent m
      → ((a : A) → Triple (IsEndCode os root) I (f a) K)
      → Triple (IsEndCode os root) I (m >>= f) K
  quietly q k = Triple-bind (Triple-Silent (inl refl) q) k

  pub leave_lost-Triple :
      (format : String) (errno : ℕ) (l : LoopLocals)
      → Triple (IsEndCode os root) (IsTracked root) (leave_lost os format errno l) (AfterRound root)
  unfolding leave_lost
  leave_lost-Triple format errno l =
      quietly (Silent-error _ _ _)
        λ _. quietly (Silent-error _ _ _) λ _. Triple-pure _ (λ g ss h. h)

  pub leave_invalid-Triple :
      (format : String) (l : LoopLocals)
      → Triple (IsEndCode os root) (IsTracked root) (leave_invalid os format l) (AfterRound root)
  unfolding leave_invalid
  leave_invalid-Triple format l =
      quietly (Silent-error _ _ _) λ _. Triple-pure _ (λ g ss h. inl (refl, h))
