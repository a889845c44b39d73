-- ===== src/Examples/CommandLines.antt =====
-- The theorems on the command line, for `runwhenidle --pause-method sigtstp make all`.
use runwhenidle.Prelude.{ℕ, ◌<◌, ◌↔◌, ◌≡◌, ◌⊎◌, refl, sym, subst, arith, true, false, List, [], ◌∷◌}
use mathlib.Core.List.{Memᴰ}
use mathlib.Core.List.Memᴰ
use runwhenidle.System.{Wp, Framed, signals, crashed}
use runwhenidle.Arguments.Remaining.{read_remaining_arguments_as_char}
use runwhenidle.Arguments.Remaining.Joined.{join, read_remaining_arguments_lem}
use runwhenidle.Arguments.Options.{ParsedOption, CommandLine, handle_option}
use runwhenidle.Arguments.Options.Ranges.{IsTested, IsLongMethod}
use runwhenidle.Arguments.Options.Method.{short_method_crashes}
use runwhenidle.Arguments.Parse.{parse_command_line_arguments}
use runwhenidle.Arguments.Parse.Settings.{IsResult, parse_accepts}
use runwhenidle.Examples.Kernel.{kernel, monitoring, monitoring-IsTracked}

abbrev pub make : List ℕ
make = b'm' ∷ b'a' ∷ b'k' ∷ b'e' ∷ []

abbrev pub all : List ℕ
all = b'a' ∷ b'l' ∷ b'l' ∷ []

abbrev pub method : ParsedOption
method = record {
  option = b'm';
  optarg = b's' ∷ b'i' ∷ b'g' ∷ b't' ∷ b's' ∷ b't' ∷ b'p' ∷ [];
  errno_set = false;
}

abbrev pub command_line : CommandLine
command_line = record {
  program = b'r' ∷ [];
  options = method ∷ [];
  arguments = make ∷ all ∷ [];
  getopt_error = [];
  version = [];
}

pub method-IsLong : (o : ParsedOption) → Memᴰ o command_line.options → IsLongMethod o
method-IsLong o (Memᴰ.head e) = subst IsLongMethod (sym e) (λ _. omega arith)
method-IsLong o (Memᴰ.tail m) = absurd (Memᴰ.not-nil m)

pub monitoring-IsTested : IsTested monitoring.globals
monitoring-IsTested = record {
  timeout_low = omega arith;
  timeout_high = omega arith;
  start = omega arith;
  method = monitoring-IsTracked.known;
  pid = omega arith;
}

parse_accepts_example :
    Wp
      (parse_command_line_arguments kernel command_line)
      (λ command t.
        IsTested t.globals
        × IsResult command_line.arguments t.globals command
        × (t.quiet ≡ true → (t.debug ≡ false) × (t.verbose ≡ false)))
      (λ c t. (c ≡ 0) ⊎ (c ≡ 1))
      monitoring
parse_accepts_example =
    parse_accepts kernel command_line monitoring (λ _ _. refl) method-IsLong monitoring-IsTested

read_remaining_arguments_lem_example :
    Wp
      (read_remaining_arguments_as_char kernel (make ∷ all ∷ []))
      (Framed monitoring
        (λ text tr. (text ≡ join (make ∷ all ∷ [])) × (signals tr ≡ signals monitoring.trace)))
      (λ c t. ⊥)
      monitoring
read_remaining_arguments_lem_example =
    read_remaining_arguments_lem kernel make (all ∷ []) monitoring (λ _ _. refl)

short_method_crashes_example :
    ((handle_option kernel command_line
        (record { option = b'm'; optarg = b'x' ∷ []; errno_set = false })
        monitoring).0
      ≡ crashed)
    ↔ (1 < 7)
short_method_crashes_example =
    short_method_crashes kernel command_line (b'x' ∷ []) false monitoring (λ _ _. refl)
