-- ===== src/Examples/Kernel.antt =====
-- A kernel with three processes: 7, its child 8, and 5. The first poll() of many descriptors is
-- interrupted.
use runwhenidle.Prelude.{
  ℕ, ◌<◌, ◌≡◌, ◌≢◌, refl, sym, ap, subst, ◌∙◌, inl, inr, true, false, Option, none, some, List, [],
  ◌∷◌, if◌then◌else◌, Bool-cases, arith, length, ◌==◌,
}
use mathlib.Core.Bool.{false≢true}
use runwhenidle.Prelude.Int.{ℤ, pos, pos_part, ◌==ℤ◌}
use mathlib.Core.List.{Memᴰ}
use mathlib.Core.List.Memᴰ
use runwhenidle.Descriptors.{eintr}
use runwhenidle.Wayland.{wl_seat, ext_idle_notifier_v1}
use runwhenidle.System.{
  Kind, Revents, Dispatched, RegistryCallback, global, WaylandLibrary, Wayland, Environment,
  poll_failed, polled, forked, Os, State, Globals, Dirent, StatFile, line, bytes_read, Outcome,
  value, sigstop_method, ◌>>=◌, pure, ask, lift, branch, when, gets, exit, fprintf_stderr, emit,
  signals,
}
use runwhenidle.Libc.Strtol.{strtol, to_int, sscanf_int, scan_number}
use runwhenidle.Libc.Tokens.{read_string, strtok_blank}
use runwhenidle.Process.Stat.{
  parse_stat, read_parent_process_id, parse_line, report_unparsed, file_contents, find_closing,
  parse_parent,
}
use runwhenidle.Process.Descendants.{ProcessInfo}
use runwhenidle.Process.Descendants.Forest.{IsForest, Descendant, Descendant-mem, child, below}
use runwhenidle.Process.Table.{
  read_all_processes, read_directory, read_entries, read_entry, read_numbered, entry_of, grow,
  store, abort_without_proc,
}
use runwhenidle.Process.Table.Snapshot.{ProcWorks, IsSnapshot}
use runwhenidle.Process.Signals.Tree.{stopped}
use runwhenidle.Arguments.Options.{is_unknown}
use runwhenidle.Monitor.Invariant.{IsTracked}

-- "7 (a) S 1 7" and "8 (b) S 7 8"
abbrev pub stat_7 : List ℕ
stat_7 = b'7' ∷ b' ' ∷ b'(' ∷ b'a' ∷ b')' ∷ b' ' ∷ b'S' ∷ b' ' ∷ b'1' ∷ b' ' ∷ b'7' ∷ []

abbrev pub stat_8 : List ℕ
stat_8 = b'8' ∷ b' ' ∷ b'(' ∷ b'b' ∷ b')' ∷ b' ' ∷ b'S' ∷ b' ' ∷ b'7' ∷ b' ' ∷ b'8' ∷ []

abbrev stat_of : ℤ → List ℕ
stat_of p = if p ==ℤ pos 8 then stat_8 else stat_7

abbrev entry : ℕ → Dirent
entry digit = record { is_directory = true; d_name = digit ∷ [] }

-- A descriptor that is ready for reading, and one that is not.
abbrev pub quiet_fd : Revents
quiet_fd = record {
  pollin = false;
  pollout = false;
  pollerr = false;
  pollhup = false;
  pollnval = false;
}

abbrev pub ready_fd : Revents
ready_fd = record quiet_fd { pollin = true }

abbrev nothing : Dispatched
nothing = record { callbacks = []; failed = none }

-- "wl_seat" and "ext_idle_notifier_v1"
abbrev pub announced : List RegistryCallback
announced =
    global (record { name = 1; interface = wl_seat; version = 5 })
    ∷ global (record { name = 2; interface = ext_idle_notifier_v1; version = 1 })
    ∷ []

-- A compositor that has both, and creates each object at an address of its own.
abbrev pub library : WaylandLibrary
library = record {
  display_connect = λ _ _. some 100;
  get_registry = λ _. some 101;
  roundtrip = λ _. announced;
  bind = λ _ kind _ _. elim kind [ Kind.seat ↦ some 102 | _ ↦ some 103 ];
  get_idle_notification = λ _. some 104;
  get_fd = λ _. pos 5;
  dispatch_pending = λ _. nothing;
  dispatch = λ _. nothing;
  flush = λ _. none;
}

abbrev pub kernel : Os
kernel = record {
  kill = λ _ _ _. none;
  waitpid_nohang = λ _ _. none;
  waitpid_block = λ _ _. none;
  clock_gettime = λ _. record { tv_sec = 1; tv_nsec = 0 };
  poll_in = λ _ _. false;
  signalfd_reads = λ _. [];
  query_idle = λ _. 400_000;
  read_proc = λ _. some (entry b'7' ∷ entry b'8' ∷ entry b'5' ∷ []);
  stat_file = λ _ p. line (stat_of p);
  allocates = λ _ _. true;
  uninitialised = λ _ _. 0;
  uninitialised_ids = λ _ _. pos 0;
  timerfd_create = λ _. pos 4;
  settime_fails = λ _ _. false;
  read_timer = λ _ _. bytes_read 8;
  close_fails = λ _ _. none;
  errno = λ _. 0;
  isatty_stderr = false;
  wayland = library;
  poll_many = λ h _.
      if length h == 2
      then poll_failed eintr
      else polled 1 (λ i. if i == 1 then ready_fd else quiet_fd);
  pidfd_open = λ _ _. (pos 6, 0);
  fork = λ _. forked (pos 7);
  sigprocmask_fails = λ _. none;
  execl_fails = λ _. none;
  signalfd = λ _. pos 3;
  x_open_display = λ _. true;
  x_query_extension = λ _. true;
  x_alloc_info = λ _. true;
}

abbrev pub table : List ProcessInfo
table =
    record { process_id = pos 7; parent_process_id = pos 1 }
    ∷ record { process_id = pos 8; parent_process_id = pos 7 }
    ∷ record { process_id = pos 5; parent_process_id = pos 1 }
    ∷ []

parse_7 : parse_stat (file_contents (λ _. 0) stat_7) ≡ value (some (pos 1))
unfolding parse_stat file_contents find_closing parse_parent read_string strtok_blank to_int strtol
parse_7 = refl

parse_8 : parse_stat (file_contents (λ _. 0) stat_8) ≡ value (some (pos 7))
unfolding parse_stat file_contents find_closing parse_parent read_string strtok_blank to_int strtol
parse_8 = refl

read_ends : (s : State) → (read_all_processes kernel s).0 ≡ value table
unfolding read_all_processes read_directory read_entries read_entry read_numbered entry_of grow
    store abort_without_proc read_parent_process_id parse_line report_unparsed parse_stat
    file_contents find_closing parse_parent sscanf_int scan_number to_int strtol ◌>>=◌ pure ask lift
    branch when gets exit read_string strtok_blank fprintf_stderr emit
read_ends s = elim (Bool-cases s.debug) [ inl e ↦ rw e refl | inr e ↦ rw e refl ]

-- The value of an outcome.
abbrev value_or : {A : Type 0} → A → Outcome A → A
value_or d (value a) = a
value_or d _ = d

table_is : (t : List ProcessInfo) → IsSnapshot kernel t → t ≡ table
table_is t (s, e) = ap (value_or []) (sym e ∙ read_ends s)

listed :
    (P : ProcessInfo → Type 0)
    → P (record { process_id = pos 7; parent_process_id = pos 1 })
    → P (record { process_id = pos 8; parent_process_id = pos 7 })
    → P (record { process_id = pos 5; parent_process_id = pos 1 })
    → (p : ProcessInfo) → Memᴰ p table
    → P p
listed P a b c p (Memᴰ.head e) = subst P (sym e) a
listed P a b c p (Memᴰ.tail (Memᴰ.head e)) = subst P (sym e) b
listed P a b c p (Memᴰ.tail (Memᴰ.tail (Memᴰ.head e))) = subst P (sym e) c
listed P a b c p (Memᴰ.tail (Memᴰ.tail (Memᴰ.tail m))) = absurd (Memᴰ.not-nil m)

not_first : (p : ProcessInfo) → Memᴰ p table → p.process_id ≢ pos 1
not_first =
    listed (λ p. p.process_id ≢ pos 1) (λ e. omega (arith, ap pos_part e))
      (λ e. omega (arith, ap pos_part e)) (λ e. omega (arith, ap pos_part e))

free : (p : ProcessInfo) → p.parent_process_id ≡ pos 1 → ¬ Descendant table (pos 7) p
free p orphan (child m e) = omega (arith, ap pos_part (sym orphan ∙ e))
free p orphan (below d m e) = not_first _ (Descendant-mem d) (sym e ∙ orphan)

absent_7 : ¬ Memᴰ (pos 7) (pos 8 ∷ pos 5 ∷ [])
absent_7 (Memᴰ.head e) = omega (arith, ap pos_part e)
absent_7 (Memᴰ.tail (Memᴰ.head e)) = omega (arith, ap pos_part e)
absent_7 (Memᴰ.tail (Memᴰ.tail m)) = Memᴰ.not-nil m

absent_8 : ¬ Memᴰ (pos 8) (pos 5 ∷ [])
absent_8 (Memᴰ.head e) = omega (arith, ap pos_part e)
absent_8 (Memᴰ.tail m) = Memᴰ.not-nil m

pub IsForest-7 : IsForest table (pos 7)
IsForest-7 = record {
  distinct_ids = (absent_7, (absent_8, ((λ m. Memᴰ.not-nil m), tt)));
  age = pos_part;
  age_grows =
      listed (λ p. pos_part p.parent_process_id < pos_part p.process_id) (omega arith) (omega arith)
        (omega arith);
  outside = record { process_id = pos 5; parent_process_id = pos 1 };
  outside_listed = Memᴰ.tail (Memᴰ.tail (Memᴰ.head refl));
  outside_free = free _ refl;
}

stat_of_parses :
    (p : ℤ) → (parent : Option ℤ) × (parse_stat (file_contents (λ _. 0) (stat_of p)) ≡ value parent)
stat_of_parses p = elim (Bool-cases (p ==ℤ pos 8)) [
  | inl e ↦ rw e (some (pos 7), parse_8)
  | inr e ↦ rw e (some (pos 1), parse_7)
]

line_of : StatFile → List ℕ
line_of (line l) = l
line_of _ = []

pub works : ProcWorks kernel (pos 7)
unfolding line_of
works = record {
  allocates = λ _ _. refl;
  stat_parses = λ h k p l e.
      let (parent, parsed) = stat_of_parses p in
      (
        parent,
        subst (λ b. parse_stat (file_contents (λ _. 0) b) ≡ value parent) (ap line_of e) parsed,
      );
  forest = λ t s. subst (λ u. IsForest u (pos 7)) (sym (table_is t s)) IsForest-7;
  numbered = λ t s p m.
      listed (λ q. q.process_id ≢ pos 0) (λ e. omega (arith, ap pos_part e))
        (λ e. omega (arith, ap pos_part e)) (λ e. omega (arith, ap pos_part e)) p
        (subst (Memᴰ p) (table_is t s) m);
}

abbrev pub no_session : Wayland
no_session = record {
  wayland_display = none;
  wayland_registry = none;
  wayland_seat = none;
  wayland_idle_notifier = none;
  wayland_idle_notifier_version = 0;
  wayland_idle_notification = none;
  wayland_idle_notify_available = false;
}

abbrev pub unset : Environment
unset = record {
  wayland_display = none;
  display = none;
  xdg_runtime_dir = none;
  xauthority = none;
  home = none;
}

-- Monitoring by X11, with the command running.
abbrev pub globals : Globals
globals = record {
  external_pid = pos 0;
  verbose = false;
  quiet = false;
  debug = false;
  monitoring_started = true;
  pause_method = sigstop_method;
  start_monitor_after_ms = pos 300;
  user_idle_timeout_ms = 300_000;
  xscreensaver_is_available = true;
  interruption_received = 0;
  command_paused = false;
  sigchld_received = false;
  signal_fd = pos 3;
  x_display_open = true;
  xscreensaver_info_allocated = true;
  pid = pos 7;
  wayland = no_session;
  environment = unset;
}

abbrev pub monitoring : State
monitoring = record { globals = globals; trace = [] }

pub monitoring-IsTracked : IsTracked (pos 7) monitoring.globals (signals monitoring.trace)
unfolding stopped
monitoring-IsTracked = record {
  root_is = refl;
  known = λ e. false≢true (ap is_unknown e);
  flag = refl;
  monitored = λ _. refl;
}
