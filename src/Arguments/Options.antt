-- ===== src/Arguments/Options.antt =====
-- What `parse_command_line_arguments` does with each option that `getopt_long` returns.
pub mod Method
pub mod Ranges
pub mod Start
pub mod Untouched
use mathlib.Core.Option
use runwhenidle.Prelude.{
  ℕ, zero, suc, ◌+◌, ◌*◌, Bool, true, false, not, ◌&&◌, ◌||◌, List, [], ◌∷◌, length, ltb, leb, ◌==◌,
  ◌-◌, ◌++◌, Option, none, some, if◌then◌else◌,
}
use runwhenidle.Prelude.Int.{ℤ, pos, pos_part, ltb_ℤ}
use runwhenidle.Libc.Strtol.{strtol, to_int}
use runwhenidle.System.{
  Os, Arg, Prog, PauseMethod, unknown, sigtstp_method, sigstop_method, ◌>>=◌, ◌>>◌, pure, exit,
  crash, ask, allocate, modify, when, branch, fprintf_error, fprintf_stderr,
}
use runwhenidle.Arguments.Usage.{
  print_usage, print_version, print_buffered_error_and_restore_stderr,
}

abbrev pub timeout_max_supported_value : ℕ
timeout_max_supported_value = 100_000_000

abbrev pub timeout_min_supported_value : ℕ
timeout_min_supported_value = 1

abbrev pub start_monitor_after_max_supported_value : ℕ
start_monitor_after_max_supported_value = 100_000_000 * 1000

abbrev pub start_monitor_after_min_supported_value : ℕ
start_monitor_after_min_supported_value = 0

-- The option's letter, what `optarg` points at, and whether errno is not 0 before it is handled.
pub record ParsedOption : Type 0 where
  pub option : ℕ
  pub optarg : List ℕ
  pub errno_set : Bool

-- argv[0], what `getopt_long` returns for the arguments, the arguments from `optind` on, the errors
-- that it has printed, and VERSION.
pub record CommandLine : Type 0 where
  pub program : List ℕ
  pub options : List ParsedOption
  pub arguments : List (List ℕ)
  pub getopt_error : List ℕ
  pub version : List ℕ

-- Whether errno is set after the call of strtol, or there is something after the number.
abbrev pub is_bad_number : ParsedOption → Bool
is_bad_number o =
    let r = strtol o.optarg in o.errno_set || r.out_of_range || not (length r.end == 0)

pub method_name : PauseMethod → List ℕ
method_name unknown = []
method_name sigtstp_method = b'S' ∷ b'I' ∷ b'G' ∷ b'T' ∷ b'S' ∷ b'T' ∷ b'P' ∷ []
method_name sigstop_method = b'S' ∷ b'I' ∷ b'G' ∷ b'S' ∷ b'T' ∷ b'O' ∷ b'P' ∷ []

-- `pause_method_string` from index 1 up to its sentinel.
abbrev pub pause_methods : List PauseMethod
pause_methods = sigtstp_method ∷ sigstop_method ∷ []

unfoldable pub strcmp_equal : List ℕ → List ℕ → Bool
strcmp_equal [] [] = true
strcmp_equal (a ∷ rest) (b ∷ others) = a == b && strcmp_equal rest others
strcmp_equal _ _ = false

pub toupper : ℕ → ℕ
toupper c = if leb b'a' c && leb c b'z' then c - 32 else c

-- So many rounds of the loop over the bytes of an array; `none` where it goes past the end.
pub upper_loop : ℕ → List ℕ → Option (List ℕ)
unfolding toupper
upper_loop zero s = some s
upper_loop (suc n) [] = none
upper_loop (suc n) (c ∷ rest) = Option.map (λ upper. toupper c ∷ upper) (upper_loop n rest)

-- The bytes of an array before the first NUL.
pub c_string : List ℕ → List ℕ
c_string [] = []
c_string (c ∷ rest) = if c == 0 then [] else c ∷ c_string rest

pub find_method : List PauseMethod → List ℕ → PauseMethod
unfolding strcmp_equal method_name
find_method [] name = unknown
find_method (m ∷ rest) name = if strcmp_equal (method_name m) name then m else find_method rest name

abbrev pub is_unknown : PauseMethod → Bool
is_unknown unknown = true
is_unknown _ = false

-- sizeof(method), the size of a pointer.
abbrev pub sizeof_method : ℕ
sizeof_method = 8

module _ (os : Os) (cl : CommandLine) where
  pub reject_timeout : ParsedOption → Prog (Unit {0})
  reject_timeout o = do
    print_buffered_error_and_restore_stderr os cl.getopt_error
    fprintf_error os "%s: Invalid timeout value: \"%s\". Range supported: %ld-%ld\n" (
        Arg.text cl.program
        ∷ Arg.text o.optarg
        ∷ Arg.nat timeout_min_supported_value
        ∷ Arg.nat timeout_max_supported_value
        ∷ [])
    exit 1

  handle_timeout : ParsedOption → Prog (Unit {0})
  handle_timeout o =
      let value = (strtol o.optarg).value in
      branch
        (λ _.
          ltb_ℤ value (pos timeout_min_supported_value)
          || ltb_ℤ (pos timeout_max_supported_value) value
          || is_bad_number o)
        (reject_timeout o) (modify (λ g. record g { user_idle_timeout_ms = pos_part value * 1000 }))

  pub reject_pid : ParsedOption → Prog (Unit {0})
  reject_pid o = do
    print_buffered_error_and_restore_stderr os cl.getopt_error
    fprintf_error os "%s: Invalid pid value: \"%s\"\n"
        (Arg.text cl.program ∷ Arg.text o.optarg ∷ [])
    exit 1

  -- The result of strtol is converted to an int.
  handle_pid : ParsedOption → Prog (Unit {0})
  handle_pid o = do
    modify (λ g. record g { external_pid = to_int (strtol o.optarg).value })
    when (λ s. ltb_ℤ s.external_pid (pos 1) || is_bad_number o) (reject_pid o)

  pub reject_start_monitor_after : ParsedOption → Prog (Unit {0})
  reject_start_monitor_after o = do
    print_buffered_error_and_restore_stderr os cl.getopt_error
    fprintf_error os
        "%s: Invalid start-monitor-after time value: \"%s\" Range supported: %ld-%ld.\n"
        (Arg.text cl.program
          ∷ Arg.text o.optarg
          ∷ Arg.nat start_monitor_after_min_supported_value
          ∷ Arg.nat start_monitor_after_max_supported_value
          ∷ [])
    exit 1

  handle_start_monitor_after : ParsedOption → Prog (Unit {0})
  handle_start_monitor_after o = do
    modify (λ g. record g { start_monitor_after_ms = (strtol o.optarg).value })
    when
        (λ s.
          ltb_ℤ s.start_monitor_after_ms (pos start_monitor_after_min_supported_value)
          || is_bad_number o)
        (reject_start_monitor_after o)

  print_methods : List PauseMethod → Prog (Unit {0})
  print_methods [] = pure tt
  print_methods (m ∷ rest) = do
    fprintf_error os "%s" (Arg.text (method_name m) ∷ [])
    when (λ _. not (length rest == 0)) (fprintf_error os ", " [])
    print_methods rest

  pub reject_method : ParsedOption → Prog (Unit {0})
  reject_method o = do
    print_buffered_error_and_restore_stderr os cl.getopt_error
    fprintf_error os "%s: Invalid value for --pause-method|m argument: \"%s\". Supported values: "
        (Arg.text cl.program ∷ Arg.text o.optarg ∷ [])
    print_methods pause_methods
    fprintf_error os "\n" []
    exit 1

  choose_method : ParsedOption → Option (List ℕ) → Prog (Unit {0})
  choose_method o none = crash
  choose_method o (some method) = do
    modify (λ g. record g { pause_method = find_method pause_methods (c_string method) })
    when (λ s. is_unknown s.pause_method) (reject_method o)

  -- strdup may give NULL, and its copy, which ends with a NUL, may have fewer than 8 bytes.
  pub handle_pause_method : ParsedOption → Prog (Unit {0})
  handle_pause_method o = do
    allocated ←
        ask (λ h. os.allocates h (length o.optarg + 1)) (λ _. allocate (length o.optarg + 1))
    branch (λ _. allocated) (choose_method o (upper_loop sizeof_method (o.optarg ++ 0 ∷ []))) crash

  pub reject_option : Prog (Unit {0})
  reject_option = do
    print_buffered_error_and_restore_stderr os cl.getopt_error
    fprintf_stderr "Try %s --help for more information\n" (Arg.text cl.program ∷ [])
    exit 1

  -- The switch.
  pub handle_option : ParsedOption → Prog (Unit {0})
  handle_option o =
      branch (λ _. o.option == b't') (handle_timeout o)
        (branch (λ _. o.option == b'p') (handle_pid o)
          (branch (λ _. o.option == b'a') (handle_start_monitor_after o)
            (branch (λ _. o.option == b'm') (handle_pause_method o)
              (branch (λ _. o.option == b'V') (print_version cl.version >> exit 0)
                (branch (λ _. o.option == b'v') (modify (λ g. record g { verbose = true }))
                  (branch (λ _. o.option == b'd')
                    (modify (λ g. record g { debug = true; verbose = true }))
                    (branch (λ _. o.option == b'q') (modify (λ g. record g { quiet = true }))
                      (branch (λ _. o.option == b'h') (print_usage cl.program >> exit 0)
                        reject_option))))))))

  -- The loop.
  pub handle_options : List ParsedOption → Prog (Unit {0})
  handle_options [] = pure tt
  handle_options (o ∷ rest) = do handle_option o; handle_options rest
