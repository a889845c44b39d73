-- ===== src/Examples/Idle.antt =====
-- The theorems on the Wayland session, its event loop and the program around them, where the program
-- watches process 7.
use runwhenidle.Prelude.{
  ◌≡◌, ◌⊎◌, ◌≤◌, ◌<◌, refl, sym, ap, true, false, arith, none, some, not, length, ◌++◌, [], ◌∷◌,
}
use mathlib.Core.Bool.{false≢true}
use runwhenidle.Prelude.Int.{ℤ, pos, negsuc, ◌≤ℤ◌}
use runwhenidle.System.{
  State, Kind, Wayland, Forked, fork_failed, forked, Wp, signals, Rounds, one, LoopWp, Outcome,
  value, calls, ◌>>=◌, pure, ask, gets, modify, emit, branch, when,
}
use runwhenidle.Process.Signals.Tree.{stopped}
use runwhenidle.Monitor.Invariant.{IsTracked, IsEndCode}
use runwhenidle.Descriptors.Silence.{ReadsAtOnce}
use runwhenidle.Wayland.{
  wl_seat, ext_idle_notifier_v1, is_null, call_display, registry_callbacks, initialize_display,
  start_wayland_idle_notification_object, timeout_ms_for_protocol, uint32_max,
  try_monitor_wayland_idle_notify,
}
use runwhenidle.Wayland.Notification.{IsConnected}
use runwhenidle.Wayland.Objects.{alive, IsOrderly, pointers, nothing}
use runwhenidle.Wayland.Binding.{
  first_of, seat_request, notifier_request, seat_requests, notifier_requests,
}
use runwhenidle.Wayland.Registry.{announcements_are_bound, announces, first_version, Binds}
use runwhenidle.Wayland.Availability.{has_both, session_iff_announced}
use runwhenidle.Wayland.Request.{start_notification_requests, Requested}
use runwhenidle.Monitor.IdleLoop.Locals.{
  LoopLocals, poll_file_descriptors, process_exit_poll_index, external_pid_fallback_poll_index,
}
use runwhenidle.Monitor.IdleLoop.Locals.Indices.{fd_at, Names, poll_indices_lem}
use runwhenidle.Monitor.IdleLoop.Watching.{IsWatching}
use runwhenidle.Monitor.IdleLoop.Stages.{dispatch_by, run_callbacks}
use runwhenidle.Monitor.IdleLoop.Round.{
  idle_loop_round, after_dispatch_pending, after_flush, poll_stage, after_poll,
}
use runwhenidle.Monitor.IdleLoop.Round.Kept.{idle_loop_tracks}
use runwhenidle.Monitor.IdleLoop.Run.{run_wayland_idle_event_loop}
use runwhenidle.Monitor.IdleLoop.Run.Outcome.{event_loop_outcome}
use runwhenidle.Monitor.IdleLoop.Lifetime.{wayland_objects_released}
use runwhenidle.Main.{run_program}
use runwhenidle.Main.Starting.{ForksAs, IsFresh}
use runwhenidle.Main.Outcome.{program_outcome}
use runwhenidle.Examples.Kernel.{kernel, works, monitoring, monitoring-IsTracked, announced}
use runwhenidle.Examples.Sessions.{files, user}

-- A session is open, and monitoring has not started.
abbrev pub session : Wayland
session = record {
  wayland_display = some 100;
  wayland_registry = some 101;
  wayland_seat = some 102;
  wayland_idle_notifier = some 103;
  wayland_idle_notifier_version = 1;
  wayland_idle_notification = none;
  wayland_idle_notify_available = true;
}

abbrev pub connected : State
connected = record monitoring {
  globals = record monitoring.globals { monitoring_started = false; wayland = session };
}

pub connected-IsTracked : IsTracked (pos 7) connected.globals (signals connected.trace)
unfolding stopped
connected-IsTracked = record {
  root_is = refl;
  known = monitoring-IsTracked.known;
  flag = refl;
  monitored = λ e. absurd (false≢true e);
}

session-IsConnected : IsConnected session
session-IsConnected = record {
  has_display = refl;
  has_registry = refl;
  has_seat = refl;
  has_notifier = refl;
  available = refl;
}

pub at_once : ReadsAtOnce kernel
at_once h fd = refl

abbrev pub locals : LoopLocals
locals = record {
  wayland_flush_is_pending = false;
  wayland_display_file_descriptor = pos 5;
  start_monitor_timer_file_descriptor = pos 4;
  start_monitor_polled = pos 4;
  process_exit_wait_file_descriptor = pos 6;
  fallback_check_timer_file_descriptor = negsuc 0;
}

poll_indices_lem_example :
    (length (poll_file_descriptors (pos 3) locals) ≤ 5)
    × (fd_at (poll_file_descriptors (pos 3) locals) 0 ≡ some (pos 5))
    × (fd_at (poll_file_descriptors (pos 3) locals) 1 ≡ some (pos 4))
    × (fd_at (poll_file_descriptors (pos 3) locals) 2 ≡ some (pos 3))
    × Names (poll_file_descriptors (pos 3) locals) (pos 6) (process_exit_poll_index locals)
    × Names
        (poll_file_descriptors (pos 3) locals)
        (negsuc 0)
        (external_pid_fallback_poll_index locals)
poll_indices_lem_example = poll_indices_lem (pos 3) locals

locals-IsWatching : IsWatching locals connected.globals
locals-IsWatching = record {
  connected = session-IsConnected;
  timer_polled = λ _. omega arith;
  same_timer = λ _. refl;
  notified = λ e. absurd (false≢true e);
}

-- The first poll() is interrupted.
interrupted_round :
    Rounds
      (idle_loop_round kernel (some 100) 10)
      locals
      connected
      locals
      (idle_loop_round kernel (some 100) 10 locals connected).1
unfolding idle_loop_round dispatch_by run_callbacks after_dispatch_pending after_flush poll_stage
    after_poll call_display ◌>>=◌ pure ask gets modify emit branch when
interrupted_round = one refl

idle_loop_tracks_example :
    (stopped (pos 7) (signals (idle_loop_round kernel (some 100) 10 locals connected).1.trace)
      ≡ (idle_loop_round kernel (some 100) 10 locals connected).1.command_paused)
    × ((idle_loop_round kernel (some 100) 10 locals connected).1.command_paused ≡ true
        → (idle_loop_round kernel (some 100) 10 locals connected).1.monitoring_started ≡ true)
    × ((idle_loop_round kernel (some 100) 10 locals connected).1.monitoring_started ≡ false
        → (pos 0 ≤ℤ pos 4) × (pos 4 ≡ pos 4))
    × ((idle_loop_round kernel (some 100) 10 locals connected).1.monitoring_started ≡ true
        → is_null
            (idle_loop_round kernel
              (some 100)
              10
              locals
              connected).1.globals.wayland.wayland_idle_notification
          ≡ false)
idle_loop_tracks_example =
    idle_loop_tracks kernel (pos 7) works at_once (some 100) refl 10 locals locals connected
      (idle_loop_round kernel (some 100) 10 locals connected).1 connected-IsTracked
      locals-IsWatching interrupted_round

event_loop_outcome_example :
    LoopWp
      (run_wayland_idle_event_loop kernel 1000 10 (some 100))
      (λ (_ : Unit {0}) t. IsTracked (pos 7) t.globals (signals t.trace))
      (λ r t.
        ((r ≡ negsuc 0) × IsTracked (pos 7) t.globals (signals t.trace))
        ⊎ ((pos 0 ≤ℤ r) × (t.command_paused ≡ false) × (stopped (pos 7) (signals t.trace) ≡ false)))
      (IsEndCode kernel (pos 7))
      connected
event_loop_outcome_example =
    event_loop_outcome kernel (pos 7) works at_once (some 100) refl 1000 10 connected
      connected-IsTracked session-IsConnected refl

-- There is no session yet.
abbrev pub beginning : State
beginning = record monitoring {
  globals = record monitoring.globals { monitoring_started = false; pid = pos 0 };
}

abbrev monitored : Outcome ℤ × State
monitored =
    try_monitor_wayland_idle_notify kernel files user (run_wayland_idle_event_loop kernel 1000 10)
      beginning

wayland_objects_released_example :
    IsOrderly (calls monitored.1.trace)
    × ((r : ℤ)
        → monitored.0 ≡ value r
        → (alive (calls monitored.1.trace) ≡ nothing)
          × (pointers monitored.1.globals.wayland ≡ nothing))
wayland_objects_released_example =
    wayland_objects_released kernel files user 1000 10 beginning tt refl refl

binds : Binds kernel
binds h Kind.display name version = refl
binds h Kind.registry name version = refl
binds h Kind.seat name version = refl
binds h Kind.notifier name version = refl
binds h Kind.notification name version = refl

announcements_are_bound_example :
    Wp
      (registry_callbacks kernel 101 announced)
      (λ _ t.
        (is_null t.wayland.wayland_seat ≡ not (announces wl_seat announced))
        × (is_null t.wayland.wayland_idle_notifier ≡ not (announces ext_idle_notifier_v1 announced))
        × (t.wayland.wayland_idle_notifier_version ≡ first_version 0 announced)
        × (seat_requests t.trace
            ≡ seat_request (first_of wl_seat announced) ++ seat_requests beginning.trace)
        × (notifier_requests t.trace
            ≡ notifier_request (first_of ext_idle_notifier_v1 announced)
              ++ notifier_requests beginning.trace))
      (λ c t. ⊥)
      beginning
announcements_are_bound_example =
    announcements_are_bound kernel 101 announced beginning binds refl refl

session_iff_announced_example :
    Wp
      (initialize_display kernel files user (some 100))
      (λ available t. available ≡ has_both announced)
      (λ c t. ⊥)
      beginning
session_iff_announced_example =
    session_iff_announced kernel files user announced 100 beginning binds (λ _. refl) (λ _. refl)
      refl refl

start_notification_requests_example :
    Wp
      (start_wayland_idle_notification_object kernel)
      (Requested kernel connected 103 102 100)
      (λ c t. ⊥)
      connected
    × (timeout_ms_for_protocol kernel 300_000 ≤ uint32_max)
    × (timeout_ms_for_protocol kernel 300_000 ≤ 300_000)
    × (300_000 ≤ uint32_max → timeout_ms_for_protocol kernel 300_000 ≡ 300_000)
    × (uint32_max < 300_000 → timeout_ms_for_protocol kernel 300_000 ≡ uint32_max)
start_notification_requests_example =
    start_notification_requests kernel connected 103 102 100 refl refl refl refl refl

id_of : Forked → ℤ
id_of (fork_failed errno) = negsuc 0
id_of (forked p) = p

pub forks : ForksAs kernel (pos 7)
unfolding id_of
forks h p e = sym (ap id_of e)

beginning-IsFresh :
    IsFresh (pos 7) (some (b'l' ∷ b's' ∷ [])) beginning.globals (signals beginning.trace)
beginning-IsFresh = (
  monitoring-IsTracked.known,
  refl,
  refl,
  record {
    no_display = refl;
    no_registry = refl;
    no_seat = refl;
    no_notifier = refl;
    no_notification = refl;
  },
  refl,
  (λ external. absurd (external refl)),
  λ e. cc,
)

program_outcome_example :
    LoopWp
      (run_program kernel files user 1000 10 (some (b'l' ∷ b's' ∷ [])))
      (λ (_ : Unit {0}) t. IsTracked (pos 7) t.globals (signals t.trace))
      (λ _ t. (t.command_paused ≡ false) × (stopped (pos 7) (signals t.trace) ≡ false))
      (IsEndCode kernel (pos 7))
      beginning
program_outcome_example =
    program_outcome kernel files user (pos 7) works at_once forks (λ _. refl) 1000 10
      (some (b'l' ∷ b's' ∷ [])) beginning beginning-IsFresh
