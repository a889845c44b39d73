-- ===== src/Arguments/Options/Start.antt =====
-- What --start-monitor-after takes (arguments_parsing.c).
use runwhenidle.Prelude.{ℕ, false}
use runwhenidle.Prelude.Int.{pos}
use runwhenidle.Libc.Decimal.{print_int}
use runwhenidle.Arguments.Options.{ParsedOption}

-- The option with the digits of a number.
abbrev pub start_option : ℕ → ParsedOption
start_option n = record { option = b'a'; optarg = print_int (pos n); errno_set = false }
