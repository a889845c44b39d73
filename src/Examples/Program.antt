-- ===== src/Examples/Program.antt =====
-- The theorems on the start and the end of the program, for `runwhenidle --pause-method sigtstp make
-- all` where the program watches process 7.
use runwhenidle.Prelude.{◌≡◌, ◌<◌, ◌+◌, ◌*◌, ◌^◌, refl, sym, subst, false, none, some, arith}
use mathlib.Core.List.{Memᴰ}
use mathlib.Core.List.Memᴰ
use runwhenidle.Prelude.Int.{pos, negsuc, ◌≤ℤ◌}
use runwhenidle.System.{State, Timespec, Wp, LoopWp, signals, forever, ◌>>=◌, sigint}
use runwhenidle.Process.Signals.Tree.{stopped}
use runwhenidle.Process.Starting.{run_in_child}
use runwhenidle.Process.Starting.Child.{Replaced, child_runs_shell}
use runwhenidle.Arguments.Options.{ParsedOption}
use runwhenidle.Arguments.Options.Ranges.{IsTested}
use runwhenidle.Arguments.Options.Untouched.{IsUntouched, IsPid}
use runwhenidle.Monitor.Invariant.{IsTracked, IsEndCode}
use runwhenidle.Monitor.IdleLoop.Round.{idle_loop_round}
use runwhenidle.Monitor.IdleLoop.Run.{leave_loop}
use runwhenidle.Monitor.IdleLoop.Run.Ending.{event_loop_ends_on_signal}
use runwhenidle.Main.{main}
use runwhenidle.Main.Whole.{IsFinalCode, main_outcome}
use runwhenidle.Sleeping.{Slept, einval, sleep_for_milliseconds, sleep_for_milliseconds_lem}
use runwhenidle.Examples.Kernel.{kernel, works}
use runwhenidle.Examples.Sessions.{files, user}
use runwhenidle.Examples.CommandLines.{make, command_line, method-IsLong, monitoring-IsTested}
use runwhenidle.Examples.Idle.{at_once, forks, connected, connected-IsTracked, locals, beginning}

-- There is no --pid.
method-IsPid : (o : ParsedOption) → Memᴰ o command_line.options → IsPid (pos 7) o
method-IsPid o (Memᴰ.head e) = subst (IsPid (pos 7)) (sym e) (λ p. absurd (omega (arith, p)))
method-IsPid o (Memᴰ.tail m) = absurd (Memᴰ.not-nil m)

beginning-IsTested : IsTested beginning.globals
beginning-IsTested = record {
  timeout_low = monitoring-IsTested.timeout_low;
  timeout_high = monitoring-IsTested.timeout_high;
  start = monitoring-IsTested.start;
  method = monitoring-IsTested.method;
  pid = monitoring-IsTested.pid;
}

beginning-IsUntouched : IsUntouched (pos 7) beginning.globals (signals beginning.trace)
beginning-IsUntouched = (
  refl,
  refl,
  record {
    no_display = refl;
    no_registry = refl;
    no_seat = refl;
    no_notifier = refl;
    no_notification = refl;
  },
  refl,
  λ external. absurd (external refl),
)

main_outcome_example :
    LoopWp
      (main kernel files user command_line 1000 10)
      (λ (_ : Unit {0}) t. IsTracked (pos 7) t.globals (signals t.trace))
      (λ _ t. (t.command_paused ≡ false) × (stopped (pos 7) (signals t.trace) ≡ false))
      (IsFinalCode kernel (pos 7))
      beginning
main_outcome_example =
    main_outcome kernel files user (pos 7) works (λ _ _. refl) at_once forks (λ _. refl)
      command_line 1000 10 beginning method-IsLong method-IsPid beginning-IsTested
      beginning-IsUntouched

-- SIGINT has come.
abbrev signalled : State
signalled = record connected {
  globals = record connected.globals { interruption_received = sigint };
}

signalled-IsTracked : IsTracked (pos 7) signalled.globals (signals signalled.trace)
signalled-IsTracked = record {
  root_is = connected-IsTracked.root_is;
  known = connected-IsTracked.known;
  flag = connected-IsTracked.flag;
  monitored = connected-IsTracked.monitored;
}

event_loop_ends_on_signal_example :
    Wp
      (forever 1000 (idle_loop_round kernel (some 100) 10) locals >>= leave_loop kernel 1000)
      (λ r t.
        (pos 0 ≤ℤ r) × (t.command_paused ≡ false) × (stopped (pos 7) (signals t.trace) ≡ false))
      (λ c t. IsEndCode kernel (pos 7) c)
      signalled
event_loop_ends_on_signal_example =
    event_loop_ends_on_signal kernel (pos 7) works (some 100) 999 10 locals signalled
      signalled-IsTracked (λ e. omega (arith, e))

child_runs_shell_example :
    Wp (run_in_child kernel make) (λ _ t. Replaced kernel make connected t) (λ c t. c ≡ 1) connected
child_runs_shell_example = child_runs_shell kernel make connected

abbrev sleeps : Timespec → Slept
sleeps _ = (pos 0, none)

sleep_for_milliseconds_lem_example :
    ((time : Timespec) × (sleep_for_milliseconds sleeps (pos 1500) ≡ sleeps time)
      × (time.tv_nsec < 10 ^ 9)
      × (time.tv_sec * 10 ^ 9 + time.tv_nsec ≡ 1500 * 10 ^ 6))
    × (sleep_for_milliseconds sleeps (negsuc 0) ≡ (negsuc 0, some einval))
sleep_for_milliseconds_lem_example = sleep_for_milliseconds_lem sleeps 1500 0
