-- ===== src/Main/Whole.antt =====
-- What becomes of the whole of `main`.
use runwhenidle.Prelude.{ℕ, ◌≡◌, ◌⊎◌, inl, inr, true, false, Option, none, some, List}
use mathlib.Core.List.{Memᴰ}
use runwhenidle.Prelude.Int.{ℤ}
use runwhenidle.System.{
  Os, Event, Globals, State, signals, Wp-mono, Wp-and, LoopWp, LoopWp-bind, LoopWp-exit,
}
use runwhenidle.Environment.Files.{Files}
use runwhenidle.Environment.Session.{User}
use runwhenidle.Process.Table.Snapshot.{ProcWorks}
use runwhenidle.Process.Signals.Tree.{stopped}
use runwhenidle.Arguments.Options.{ParsedOption, CommandLine}
use runwhenidle.Arguments.Options.Ranges.{IsTested, IsLongMethod}
use runwhenidle.Arguments.Options.Untouched.{IsUntouched, IsPid}
use runwhenidle.Arguments.Parse.Settings.{IsResult, parse_accepts}
use runwhenidle.Arguments.Parse.Untouched.{parse-keeps}
use runwhenidle.Monitor.Invariant.{IsTracked, IsEndCode}
use runwhenidle.Descriptors.Silence.{ReadsAtOnce}
use runwhenidle.Main.{main}
use runwhenidle.Main.Starting.{ForksAs, IsFresh}
use runwhenidle.Main.Outcome.{program_outcome}

-- The codes with which the program may end: 0 after --help or --version, and those of the loops.
abbrev pub IsFinalCode : Os → ℤ → ℕ → Type 0
IsFinalCode os root c = (c ≡ 0) ⊎ IsEndCode os root c

-- Of an accepted command line, the rest of the program has what it needs.
accepted-IsFresh :
    (root : ℤ) (arguments : List (List ℕ)) (command : Option (List ℕ)) (g : Globals)
    (l : List (ℤ × ℕ))
    → IsTested g
    → IsResult arguments g command
    → IsUntouched root g l
    → IsFresh root command g l
accepted-IsFresh root arguments none g l range result h =
    (range.method, h.0, h.1, h.2, h.3, h.4, λ _. result.0)
accepted-IsFresh root arguments (some text) g l range result h =
    (range.method, h.0, h.1, h.2, h.3, h.4, λ e. cc)

-- With a working /proc, memory, an XScreenSaverAllocInfo that succeeds, reads of timers that do not block, and a fork and --pid arguments
-- that give no other id than `root`, where no --pause-method argument is so short that making it
-- upper case is undefined, from the settings that the program begins with, and for any number of
-- rounds: the program returns with the command running; or it ends with 0, with 1 or with the
-- code that goes with the command's end, or is still going on when the rounds are over, with
-- `command_paused` saying what the signals sent have done to the command. It does not crash.
pub main_outcome :
    (os : Os) (files : Files) (user : User) (root : ℤ) (works : ProcWorks os root)
    (allocates : (h : List Event) (n : ℕ) → os.allocates h n ≡ true) (at_once : ReadsAtOnce os)
    (forks : ForksAs os root) (has_info : (h : List Event) → os.x_alloc_info h ≡ true)
    (cl : CommandLine) (rounds retries : ℕ) (s : State)
    → ((o : ParsedOption) → Memᴰ o cl.options → IsLongMethod o)
    → ((o : ParsedOption) → Memᴰ o cl.options → IsPid root o)
    → IsTested s.globals
    → IsUntouched root s.globals (signals s.trace)
    → LoopWp
        (main os files user cl rounds retries)
        (λ (_ : Unit {0}) t. IsTracked root t.globals (signals t.trace))
        (λ _ t. (t.command_paused ≡ false) × (stopped root (signals t.trace) ≡ false))
        (IsFinalCode os root)
        s
unfolding main
main_outcome os files user root works allocates at_once forks has_info cl rounds retries s long pid
      range untouched =
    LoopWp-bind
      (Wp-mono
        (Wp-and _ _ _ _ (parse_accepts os cl s allocates long range)
          ((parse-keeps os cl root allocates long pid).run s untouched))
        (λ command t h.
          accepted-IsFresh root cl.arguments command t.globals (signals t.trace) h.0.0 h.0.1 h.1)
        (λ c t h. elim h [ inl e ↦ inl e | inr e ↦ inr (inl e) ]))
      (λ command t fresh.
        LoopWp-exit _ _ _ _
          (program_outcome os files user root works at_once forks has_info rounds retries command t
            fresh)
          (λ c e. inr e))
