-- ===== src/Main/Outcome.antt =====
-- What becomes of the program once the command line has been accepted.
use runwhenidle.Prelude.{ℕ, ◌≡◌, refl, sym, ap, ◌∙◌, inl, inr, true, false, Option, List, arith}
use mathlib.Core.Bool.{false≢true}
use runwhenidle.Prelude.Int.{ℤ, pos, negsuc, ◌≤ℤ◌, ltb_ℤ}
use runwhenidle.System.{
  Os, Event, Globals, State, Claim, signals, Triple-pure, Silent-emit, Silent-gets, LoopWp,
  LoopWp-still, Runs, Runs-Triple, Runs-pre, Runs-bind, Runs-branch,
}
use runwhenidle.Environment.Files.{Files}
use runwhenidle.Environment.Session.{User}
use runwhenidle.Process.Table.Snapshot.{ProcWorks}
use runwhenidle.Process.Signals.Tree.{stopped}
use runwhenidle.Monitor.Invariant.{IsTracked, IsEndCode}
use runwhenidle.Descriptors.Silence.{ReadsAtOnce}
use runwhenidle.Wayland.Session.{try_monitor-Runs}
use runwhenidle.Monitor.IdleLoop.Watching.{CleanedUp}
use runwhenidle.Monitor.IdleLoop.Run.{run_wayland_idle_event_loop}
use runwhenidle.Monitor.IdleLoop.Run.Outcome.{event_loop-Tracks}
use runwhenidle.Monitor.X11.Rounds.{poll_loop_outcome}
use runwhenidle.Main.Starting.{
  ForksAs, IsFresh, Early, quietly, receive-Triple, start_command-Triple, infer-Triple,
  open_x11-Triple, Early-apart, CleanedUp-apart,
}
use runwhenidle.Main.{after_wayland, run_program}

module _ (os : Os) (files : Files) (user : User) (root : ℤ) (works : ProcWorks os root)
    (at_once : ReadsAtOnce os) (forks : ForksAs os root)
    (has_info : (h : List Event) → os.x_alloc_info h ≡ true) (rounds retries : ℕ) where
  abbrev IsRunning : ℕ → Claim
  IsRunning c g l = (g.command_paused ≡ false) × (stopped root l ≡ false)

  unfinished :
      (result : ℤ) (g : Globals) (l : List (ℤ × ℕ))
      → CleanedUp root result g l
      → ltb_ℤ result (pos 0) ≡ true
      → IsTracked root g l
  unfinished result g l (inl h) e = h.1
  unfinished result g l (inr h) e = absurd (not_below result h.0 e)
    where
      not_below : (r : ℤ) → pos 0 ≤ℤ r → ltb_ℤ r (pos 0) ≡ true → ⊥
      not_below (pos n) k q = ground arith
      not_below (negsuc n) k q = omega (arith, k)

  finished :
      (result : ℤ) (g : Globals) (l : List (ℤ × ℕ))
      → CleanedUp root result g l
      → ltb_ℤ result (pos 0) ≡ false
      → (g.command_paused ≡ false) × (stopped root l ≡ false)
  finished result g l (inl h) e = absurd (false≢true (sym e ∙ ap (λ r. ltb_ℤ r (pos 0)) h.0))
  finished result g l (inr h) e = (h.1, h.2)

  after_wayland-Runs :
      (result : ℤ)
      → Runs
          (IsTracked root)
          (IsEndCode os root)
          (CleanedUp root result)
          (after_wayland os files user rounds result)
          IsRunning
  unfolding after_wayland
  after_wayland-Runs result =
      Runs-branch (λ _. ltb_ℤ result (pos 0))
        (Runs-pre (λ g l h. unfinished result g l h.0 h.1)
          (Runs-bind (Runs-Triple (open_x11-Triple os root files user has_info)) λ _. record {
            run = λ s h.
                LoopWp-still _ (poll_loop_outcome os root works rounds s h.0 h.1) (λ y t k. k.0);
          }))
        (Runs-pre (λ g l h. finished result g l h.0 h.1)
          (Runs-Triple (
            quietly os root (Silent-gets _)
              λ fd. quietly os root (Silent-emit _ (λ tr. refl)) λ _. Triple-pure _ (λ g l h. h))))

  pub run_program-Runs :
      (command : Option (List ℕ))
      → Runs
          (IsTracked root)
          (IsEndCode os root)
          (IsFresh root command)
          (run_program os files user rounds retries command)
          IsRunning
  unfolding run_program
  run_program-Runs command = Runs-bind (Runs-Triple (receive-Triple os root command)) λ _.
      Runs-bind (Runs-Triple (start_command-Triple os root forks command)) λ _.
        Runs-bind (Runs-Triple (infer-Triple os root files user)) λ _.
          Runs-bind
            (try_monitor-Runs (IsEndCode os root) (inl refl) (IsTracked root) (Early root)
              (Early-apart root) (CleanedUp root) (CleanedUp-apart root) (λ g l h. inl (refl, h.0))
              os files user (run_wayland_idle_event_loop os rounds retries)
              (λ d there.
                Runs-pre (λ g l h. (h.0.0, h.1, h.0.1))
                  (event_loop-Tracks os root works at_once d there rounds retries)))
            λ result. Runs-pre (λ g l h. h.0) (after_wayland-Runs result)

-- With a working /proc, reads of timers that do not block, an XScreenSaverAllocInfo that succeeds,
-- and a fork that gives no other id than `root`, from a state that a command line leaves, before any signal has been sent, and for any
-- number of rounds: the program returns with the command running, whichever of the Wayland and
-- the X11 loop it was in; or it ends with 1 or the code that goes with the command's end, or is
-- still going on when the rounds are over, with `command_paused` saying what the signals sent
-- have done to the command. It does not crash.
pub program_outcome :
    (os : Os) (files : Files) (user : User) (root : ℤ) (works : ProcWorks os root)
    (at_once : ReadsAtOnce os) (forks : ForksAs os root)
    (has_info : (h : List Event) → os.x_alloc_info h ≡ true) (rounds retries : ℕ)
    (command : Option (List ℕ)) (s : State)
    → IsFresh root command s.globals (signals s.trace)
    → LoopWp
        (run_program os files user rounds retries command)
        (λ (_ : Unit {0}) t. IsTracked root t.globals (signals t.trace))
        (λ _ t. (t.command_paused ≡ false) × (stopped root (signals t.trace) ≡ false))
        (IsEndCode os root)
        s
program_outcome os files user root works at_once forks has_info rounds retries command s fresh =
    (run_program-Runs os files user root works at_once forks has_info rounds retries command).run s
      fresh
