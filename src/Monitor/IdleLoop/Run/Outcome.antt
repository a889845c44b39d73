-- ===== src/Monitor/IdleLoop/Run/Outcome.antt =====
-- What becomes of the whole of `run_wayland_idle_event_loop`.
use runwhenidle.Prelude.{ℕ, ◌≡◌, refl, sym, ◌∙◌, inl, inr, ◌⊎◌, false, Option, arith}
use mathlib.Core.Bool.{false≢true}
use runwhenidle.Prelude.Int.{ℤ, pos, negsuc, ◌≤ℤ◌, ◌==ℤ◌, ==ℤ_iff}
use runwhenidle.System.{
  Os, State, Claim, Prog, signals, Triple-Silent, Triple-pure, Silent, Silent-pure, Silent-error,
  Silent-ask, Silent-when, Silent-stderr, Silent-gets, Silent-bind, ◌>>=◌, LoopWp, LoopWp-mono,
  Runs, Runs-Triple, Runs-pre, Runs-bind, Runs-branch, Runs-fact, Runs-forever,
}
use runwhenidle.Process.Table.Snapshot.{ProcWorks}
use runwhenidle.Process.Signals.Tree.{stopped}
use runwhenidle.Process.Starting.{open_pid_file_descriptor_for_process}
use runwhenidle.Monitor.Invariant.{IsTracked, IsEndCode}
use runwhenidle.Monitor.Signals.Waiting.{waiting_keeps_running}
use runwhenidle.Monitor.X11.Polling.{check-Triple}
use runwhenidle.Descriptors.Silence.{
  ReadsAtOnce, IsDescriptor, one_shot-Triple, refused-Triple, periodic-Silent, close-Silent,
}
use runwhenidle.Wayland.{is_null}
use runwhenidle.Wayland.Notification.{IsConnected, call_display-Silent}
use runwhenidle.Monitor.IdleLoop.Locals.{LoopLocals, LoopExit, cleanup, lost}
use runwhenidle.Monitor.IdleLoop.Watching.{Watched, Left, AfterRound, CleanedUp}
use runwhenidle.Monitor.IdleLoop.Round.{idle_loop_round}
use runwhenidle.Monitor.IdleLoop.Round.Kept.{idle_round-Triple}
use runwhenidle.Monitor.IdleLoop.Run.{
  start_timer, close_descriptors, leave_by_cleanup, leave_lost_connection, leave_loop, run_loop,
  with_fallback, with_process_exit, with_display, run_wayland_idle_event_loop,
}

-- Before the loop: there is a session, and monitoring has not started.
abbrev pub Prepared : ℤ → Claim
Prepared root g ss = IsTracked root g ss × IsConnected g.wayland × (g.monitoring_started ≡ false)

-- The timer has been created, and is the one in the array.
abbrev HasTimer : LoopLocals → Type 0
HasTimer l =
    (pos 0 ≤ℤ l.start_monitor_polled)
    × (l.start_monitor_polled ≡ l.start_monitor_timer_file_descriptor)

not_minus_one : (r : ℤ) → IsDescriptor r → r ==ℤ negsuc 0 ≡ false → pos 0 ≤ℤ r
not_minus_one r (inl e) n = absurd (false≢true (sym n ∙ (==ℤ_iff r (negsuc 0)).1 e))
not_minus_one r (inr h) n = h

module _ (os : Os) (root : ℤ) where
  -- A run of the program of which the invariant holds as long as it goes on.
  abbrev pub Tracks : {A : Type 0} → Claim → Prog A → (A → Claim) → Type 0
  Tracks I m J = Runs (IsTracked root) (IsEndCode os root) I m J

  pub silently :
      {A B : Type 0} {I : Claim} {m : Prog A} {f : A → Prog B} {L : B → Claim}
      → Silent m
      → ((a : A) → Tracks I (f a) L)
      → Tracks I (m >>= f) L
  silently q k = Runs-bind (Runs-Triple (Triple-Silent (inl refl) q)) k

  pub close_descriptors-Silent : (l : LoopLocals) → Silent (close_descriptors os l)
  unfolding close_descriptors
  close_descriptors-Silent l = Silent-bind _ _ (close-Silent os _ _) λ _.
      Silent-bind _ _ (close-Silent os _ _)
        λ _. Silent-bind _ _ (close-Silent os _ _) λ _. Silent-pure _

  leave_by_cleanup-Tracks :
      (l : LoopLocals) (result : ℤ)
      → Tracks (CleanedUp root result) (leave_by_cleanup os l result) (CleanedUp root)
  unfolding leave_by_cleanup
  leave_by_cleanup-Tracks l result =
      silently (close_descriptors-Silent l) λ _. Runs-Triple (Triple-pure _ (λ g ss h. h))

  -- An error before the loop.
  give_up-Tracks :
      (l : LoopLocals) → Tracks (Prepared root) (leave_by_cleanup os l (negsuc 0)) (CleanedUp root)
  give_up-Tracks l = Runs-pre (λ g ss h. inl (refl, h.0)) (leave_by_cleanup-Tracks l (negsuc 0))

module _ (os : Os) (root : ℤ) (works : ProcWorks os root) (rounds : ℕ) where
  leave_lost-Tracks :
      (l : LoopLocals)
      → Tracks os root (IsTracked root) (leave_lost_connection os rounds l) (CleanedUp root)
  unfolding leave_lost_connection
  leave_lost-Tracks l = silently os root (close_descriptors-Silent os root l) λ _.
      silently os root (Silent-when _ _ (Silent-stderr _ _)) λ _.
        Runs-bind {J = λ _ g ss. (g.command_paused ≡ false) × (stopped root ss ≡ false)}
          (record {
            run = λ s h.
                LoopWp-mono (waiting_keeps_running os root works rounds s h) (λ _ t k. k.0)
                  (λ c t k. (k.0, k.1));
          })
          λ c. Runs-Triple (Triple-pure _ (λ g ss h. inr (omega arith, h.0, h.1)))

  leave_loop-Tracks :
      (l : LoopLocals) (e : LoopExit)
      → Tracks os root (Left root e) (leave_loop os rounds (l, e)) (CleanedUp root)
  unfolding leave_loop
  leave_loop-Tracks l (cleanup result) = leave_by_cleanup-Tracks os root l result
  leave_loop-Tracks l lost = leave_lost-Tracks l

module _ (os : Os) (root : ℤ) (works : ProcWorks os root) (at_once : ReadsAtOnce os)
    (display : Option ℕ) (there : is_null display ≡ false) (rounds retries : ℕ) where
  run_loop-Tracks :
      (l : LoopLocals)
      → HasTimer l
      → Tracks os root (Prepared root) (run_loop os rounds retries display l) (CleanedUp root)
  unfolding run_loop
  run_loop-Tracks l timer =
      Runs-bind (Runs-Triple (check-Triple os root works _ (λ g ss h. h.0.root_is))) λ _.
        silently os root (Silent-when _ _ (Silent-stderr _ _)) λ _.
          Runs-bind
            (Runs-pre
              (λ g ss h. (
                h.0,
                record {
                  connected = h.1;
                  timer_polled = λ _. timer.0;
                  same_timer = λ _. timer.1;
                  notified = λ e. absurd (false≢true (sym h.2 ∙ e));
                },
              ))
              (Runs-forever (IsTracked root) (IsEndCode os root) (Watched root) (AfterRound root)
                (idle_loop_round os display retries)
                (idle_round-Triple os root works at_once display there retries) (λ x s h. h)
                (λ x g ss h. h.0) rounds l))
            λ (l', e). leave_loop-Tracks os root works rounds l' e

  with_fallback-Tracks :
      (l : LoopLocals)
      → HasTimer l
      → Tracks os root (Prepared root) (with_fallback os rounds retries display l) (CleanedUp root)
  unfolding with_fallback
  with_fallback-Tracks l timer = silently os root (periodic-Silent os _) λ fallback.
      Runs-branch (λ _. fallback ==ℤ negsuc 0)
        (Runs-pre (λ g ss h. h.0)
          (silently os root (Silent-gets _)
            λ errno. silently os root (Silent-error _ _ _) λ _. give_up-Tracks os root _))
        (Runs-pre (λ g ss h. h.0) (run_loop-Tracks _ timer))

  with_process_exit-Tracks :
      (l : LoopLocals) (pid : ℤ) (opened : ℤ × ℕ)
      → HasTimer l
      → Tracks os root
          (Prepared root)
          (with_process_exit os rounds retries display l pid opened)
          (CleanedUp root)
  unfolding with_process_exit
  with_process_exit-Tracks l pid (descriptor, errno) timer =
      Runs-branch (λ _. descriptor ==ℤ negsuc 0)
        (Runs-pre (λ g ss h. h.0)
          (silently os root (Silent-error _ _ _) λ _. with_fallback-Tracks _ timer))
        (Runs-pre (λ g ss h. h.0) (run_loop-Tracks _ timer))

  with_display-Tracks :
      (l : LoopLocals)
      → HasTimer l
      → Tracks os root (Prepared root) (with_display os rounds retries display l) (CleanedUp root)
  unfolding with_display open_pid_file_descriptor_for_process
  with_display-Tracks l timer =
      Runs-branch (λ _. l.wayland_display_file_descriptor ==ℤ negsuc 0)
        (Runs-pre (λ g ss h. h.0)
          (silently os root (Silent-error _ _ _) λ _. give_up-Tracks os root _))
        (Runs-pre (λ g ss h. h.0)
          (silently os root (Silent-gets _) λ pid.
            silently os root (Silent-ask _ _ (λ a tr. refl))
              λ opened. with_process_exit-Tracks l pid opened timer))

  start_timer-Tracks :
      (delay : ℤ)
      → Tracks os root
          (Prepared root)
          (start_timer os delay)
          (λ r g ss. Prepared root g ss × IsDescriptor r)
  start_timer-Tracks (pos n) = Runs-Triple (one_shot-Triple os _ (inl refl) _ n)
  start_timer-Tracks (negsuc n) = Runs-Triple (refused-Triple os _ (inl refl) _)

  pub event_loop-Tracks :
      Tracks os root
        (Prepared root)
        (run_wayland_idle_event_loop os rounds retries display)
        (CleanedUp root)
  unfolding run_wayland_idle_event_loop
  event_loop-Tracks = silently os root (Silent-gets _) λ delay.
      Runs-bind (start_timer-Tracks delay) λ timer.
        Runs-branch (λ _. timer ==ℤ negsuc 0)
          (Runs-pre (λ g ss h. h.0.0)
            (silently os root (Silent-gets _)
              λ errno. silently os root (Silent-error _ _ _) λ _. give_up-Tracks os root _))
          (Runs-fact (λ g ss h. not_minus_one timer h.0.1 h.1)
            λ opened.
              Runs-pre (λ g ss h. h.0.0)
                (silently os root (call_display-Silent os.wayland.get_fd display there)
                  λ fd. with_display-Tracks _ (opened, refl)))

-- With a working /proc, reads of timers that do not block, and a display that is not NULL, from a
-- state in which the invariant holds, there is a session and monitoring has not started, and for
-- any number of rounds: the event loop returns -1 with the invariant, or a number that is not
-- negative with the command running; or it ends the program with 1 or the code that goes with
-- the command's end, or is still going on when the rounds are over, in a state in which the
-- invariant holds. It does not crash: no pointer that is NULL is passed to the Wayland library.
pub event_loop_outcome :
    (os : Os) (root : ℤ) (works : ProcWorks os root) (at_once : ReadsAtOnce os) (display : Option ℕ)
    (there : is_null display ≡ false) (rounds retries : ℕ) (s : State)
    → IsTracked root s.globals (signals s.trace)
    → IsConnected s.wayland
    → s.monitoring_started ≡ false
    → LoopWp
        (run_wayland_idle_event_loop os rounds retries display)
        (λ (_ : Unit {0}) t. IsTracked root t.globals (signals t.trace))
        (λ r t.
          ((r ≡ negsuc 0) × IsTracked root t.globals (signals t.trace))
          ⊎ ((pos 0 ≤ℤ r) × (t.command_paused ≡ false) × (stopped root (signals t.trace) ≡ false)))
        (IsEndCode os root)
        s
event_loop_outcome os root works at_once display there rounds retries s tracked connected early =
    (event_loop-Tracks os root works at_once display there rounds retries).run s
      (tracked, connected, early)
