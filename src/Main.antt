-- ===== src/Main.antt =====
-- `main` (main.c), from the command line to the loop that watches the command.
pub mod Starting
pub mod Outcome
pub mod Whole
use runwhenidle.Prelude.{ℕ, String, Bool, true, false, not, Option, none, some, List, [], ◌∷◌, ◌++◌}
use runwhenidle.Prelude.Int.{ℤ, pos, negsuc, pos_part, ltb_ℤ, ◌==ℤ◌}
use runwhenidle.System.{
  Os, Globals, Environment, Arg, print, stderr, kill, sigprocmask, sig_block, sigint, sigterm,
  sigchld, signalfd, open_display, query_extension, alloc_info, close, Prog, ◌>>=◌, ◌>>◌, pure,
  exit, crash, ask, gets, modify, emit, branch, when, fprintf_error,
}
use runwhenidle.Arguments.Options.{CommandLine}
use runwhenidle.Arguments.Parse.{parse_command_line_arguments}
use runwhenidle.Process.Starting.{run_shell_command}
use runwhenidle.Process.Exit.{is_external}
use runwhenidle.Environment.Files.{Files}
use runwhenidle.Environment.Session.{
  User, Session, best_effort_infer_graphical_session_environment_if_missing,
  open_x11_display_best_effort,
}
use runwhenidle.Wayland.{try_monitor_wayland_idle_notify}
use runwhenidle.Monitor.IdleLoop.Run.{run_wayland_idle_event_loop}
use runwhenidle.Monitor.X11.{poll_loop}

module _ (os : Os) where
  -- The signals are blocked, and can be read from a descriptor.
  block_signals : Option ℕ → Prog (Unit {0})
  block_signals (some errno) = do
    fprintf_error os "Failed to block signals for signalfd\n" []
    exit 1
  block_signals none = do
    fd ← ask os.signalfd (λ _. signalfd)
    modify (λ g. record g { signal_fd = fd })
    branch (λ _. fd ==ℤ negsuc 0) (do fprintf_error os "Failed to create signalfd\n" []; exit 1)
        (pure tt)

  pub receive_signals : Prog (Unit {0})
  receive_signals = do
    failed ←
        ask os.sigprocmask_fails
          (λ failed. sigprocmask sig_block (sigint ∷ sigterm ∷ sigchld ∷ []) failed)
    block_signals failed

  -- The command, which is NULL where a process id was given.
  run_command : Option (List ℕ) → Prog (Unit {0})
  run_command none = crash
  run_command (some command) = do
    pid ← run_shell_command os command
    modify (λ g. record g { pid = pid })

  fail_unless_running : ℤ → Option ℕ → Prog (Unit {0})
  fail_unless_running pid none = pure tt
  fail_unless_running pid (some errno) = do
    fprintf_error os "PID %d is not running\n" (Arg.num pid ∷ [])
    exit 1

  use_external_pid : Prog (Unit {0})
  use_external_pid = do
    modify (λ g. record g { pid = g.external_pid })
    pid ← gets (λ s. s.pid)
    answer ← ask (λ h. os.kill h pid 0) (kill pid 0)
    fail_unless_running pid answer

  pub start_command : Option (List ℕ) → Prog (Unit {0})
  start_command command = branch is_external use_external_pid (run_command command)

  print_all : List (String × List Arg) → Prog (Unit {0})
  print_all [] = pure tt
  print_all ((format, args) ∷ earlier) = do print_all earlier; emit (print stderr format args)

module _ (os : Os) (files : Files) (user : User) where
  inferred : Globals → Session
  inferred g =
      best_effort_infer_graphical_session_environment_if_missing files user g.verbose
        (record { environment = g.environment; printed = [] })

  pub infer_session : Prog (Unit {0})
  infer_session = do
    session ← gets (λ s. inferred s.globals)
    modify (λ g. record g { environment = session.environment })
    print_all os session.printed

  opened : Globals → Bool × Environment
  opened g = open_x11_display_best_effort files user os.x_open_display g.environment

  ask_xscreensaver : Bool → Prog (Unit {0})
  ask_xscreensaver false = do
    modify (λ g. record g { xscreensaver_is_available = false })
    fprintf_error os "Couldn't open an X11 display!\n" []
  ask_xscreensaver true = do
    available ← ask os.x_query_extension (λ _. query_extension)
    modify (λ g. record g { xscreensaver_is_available = available })
    when (λ _. available)
        (do
          allocated ← ask os.x_alloc_info (λ _. alloc_info)
          modify (λ g. record g { xscreensaver_info_allocated = allocated }))

  pub open_x11 : Prog (Unit {0})
  open_x11 = do
    emit open_display
    (is_open, environment) ← gets (λ s. opened s.globals)
    modify (λ g. record g { x_display_open = is_open; environment = environment })
    ask_xscreensaver is_open
    when (λ s. not s.xscreensaver_is_available)
        (fprintf_error os
          "No available method for detecting user idle time on the system, the command will not be paused.\n"
          [])

  -- Where the Wayland loop has not ended the program's work, X11 is tried.
  after_wayland : ℕ → ℤ → Prog ℕ
  after_wayland rounds result =
      branch (λ _. ltb_ℤ result (pos 0)) (do open_x11; poll_loop os rounds)
        (do fd ← gets (λ s. s.signal_fd); emit (close fd); pure (pos_part result))

  -- `main` after the command line. The rounds bound each loop, the retries a read of a timer.
  pub run_program : ℕ → ℕ → Option (List ℕ) → Prog ℕ
  run_program rounds retries command = do
    receive_signals os
    start_command os command
    infer_session
    result ←
        try_monitor_wayland_idle_notify os files user
          (run_wayland_idle_event_loop os rounds retries)
    after_wayland rounds result

  pub main : CommandLine → ℕ → ℕ → Prog ℕ
  main cl rounds retries = do
    command ← parse_command_line_arguments os cl
    run_program rounds retries command
