-- ===== src/Monitor/IdleLoop/Run/Ending.antt =====
-- A signal ends `run_wayland_idle_event_loop`.
use runwhenidle.Prelude.{ℕ, suc, ◌≡◌, ◌≢◌, Option, false, arith}
use runwhenidle.Prelude.Int.{ℤ, pos, ◌≤ℤ◌}
use runwhenidle.System.{
  Os, State, Claim, Holds, Triple, Triple-pure, Triple-fact, signals, Wp, Wp-bind, Wp-pure,
  Wp-branch, forever, forever-last, LastRound, ◌>>=◌,
}
use runwhenidle.Process.Table.Snapshot.{ProcWorks}
use runwhenidle.Process.Signals.Tree.{stopped}
use runwhenidle.Monitor.Invariant.{IsTracked, IsEndCode}
use runwhenidle.Monitor.Signals.Leaving.{interruption_leaves_running}
use runwhenidle.Monitor.IdleLoop.Locals.{LoopLocals, LoopExit, cleanup, lost}
use runwhenidle.Monitor.IdleLoop.Watching.{quietly}
use runwhenidle.Monitor.IdleLoop.Round.{idle_loop_round}
use runwhenidle.Monitor.IdleLoop.Run.{leave_by_cleanup, leave_loop}
use runwhenidle.Monitor.IdleLoop.Run.Outcome.{close_descriptors-Silent}

module _ (os : Os) (root : ℤ) where
  abbrev Returned : ℤ → Claim
  Returned r g l = (pos 0 ≤ℤ r) × (g.command_paused ≡ false) × (stopped root l ≡ false)

  -- The loop has been left by the label for the clean-up, with a result.
  abbrev Ended : LoopExit → Claim
  Ended (cleanup r) = Returned r
  Ended lost = λ g l. ⊥

  leave_loop-Triple :
      (rounds : ℕ) (l : LoopLocals) (e : LoopExit)
      → Triple (IsEndCode os root) (Ended e) (leave_loop os rounds (l, e)) Returned
  unfolding leave_loop leave_by_cleanup
  leave_loop-Triple rounds l (cleanup r) =
      quietly os root (close_descriptors-Silent os root l) λ _. Triple-pure r (λ g ss h. h)
  leave_loop-Triple rounds l lost = Triple-fact (λ g ss h. h) λ none_. absurd none_

  module _ (works : ProcWorks os root) (display : Option ℕ) (retries : ℕ) where
    idle_loop_round-LastRound :
        (l : LoopLocals) (s : State)
        → IsTracked root s.globals (signals s.trace)
        → s.interruption_received ≢ 0
        → Wp
            (idle_loop_round os display retries l)
            (LastRound (λ (left : LoopLocals × LoopExit). Holds (Ended left.1)))
            (λ c t. IsEndCode os root c)
            s
    unfolding idle_loop_round
    idle_loop_round-LastRound l s tracked received =
        Wp-branch _ _ _
          (λ _.
            Wp-bind (interruption_leaves_running os root works s tracked)
              (λ c t h. Wp-pure _ (omega arith, h.1, h.2)) (λ c t h. h))
          (λ e. absurd (received (ground arith)))

-- With a working /proc, from a state in which the invariant holds and a signal has been received,
-- whatever the display and the locals are: the loop is left in its next round, and the function
-- returns a number that is not negative, with the command running; or the program ends with 1 or
-- the code that goes with the command's end.
pub event_loop_ends_on_signal :
    (os : Os) (root : ℤ) (works : ProcWorks os root) (display : Option ℕ) (more_rounds retries : ℕ)
    (l : LoopLocals) (s : State)
    → IsTracked root s.globals (signals s.trace)
    → s.interruption_received ≢ 0
    → Wp
        (forever (suc more_rounds) (idle_loop_round os display retries) l
          >>= leave_loop os (suc more_rounds))
        (λ r t.
          (pos 0 ≤ℤ r) × (t.command_paused ≡ false) × (stopped root (signals t.trace) ≡ false))
        (λ c t. IsEndCode os root c)
        s
event_loop_ends_on_signal os root works display more_rounds retries l s tracked received =
    Wp-bind
      (forever-last _ _ (idle_loop_round os display retries) more_rounds
        (idle_loop_round-LastRound os root works display retries l s tracked received))
      (λ (l', e) t h. (leave_loop-Triple os root (suc more_rounds) l' e).run t h) (λ c t h. h)
