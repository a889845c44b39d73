-- ===== src/System/Types.antt =====
-- What the program asks of the operating system, and its global variables. The kernel answers a
-- call by a function of all the calls before it, so that a proof covers every behaviour of it.
use runwhenidle.Prelude.{ℕ, String, Bool, Option, List}
use runwhenidle.Prelude.Int.{ℤ}

-- The signal numbers of Linux.
abbrev pub sigint : ℕ
sigint = 2

abbrev pub sigterm : ℕ
sigterm = 15

abbrev pub sigchld : ℕ
sigchld = 17

abbrev pub sigcont : ℕ
sigcont = 18

abbrev pub sigstop : ℕ
sigstop = 19

abbrev pub sigtstp : ℕ
sigtstp = 20

pub data Stream : Type 0 where
  stdout stderr : Stream

-- An argument of a format.
pub data Arg : Type 0 where
  num : ℤ → Arg
  nat : ℕ → Arg
  text : List ℕ → Arg
  lit : String → Arg
  error_text : ℕ → Arg

pub record Timespec : Type 0 where
  pub tv_sec : ℕ
  pub tv_nsec : ℕ

-- The objects of the Wayland client library that the program has pointers to.
pub data Kind : Type 0 where
  display registry seat notifier notification : Kind

-- One call of that library. An object is created and destroyed by its address.
pub data WaylandCall : Type 0 where
  created : Kind → ℕ → WaylandCall
  destroyed : Kind → ℕ → WaylandCall
  not_created : Kind → WaylandCall
  used : Kind → ℕ → WaylandCall

-- One entry of the array that poll() takes: the descriptor, and whether POLLOUT is asked for beside
-- POLLIN.
pub record Pollfd : Type 0 where
  pub fd : ℤ
  pub pollout : Bool

-- What sigprocmask does with the signals that it is given.
pub data MaskChange : Type 0 where
  sig_block sig_setmask : MaskChange

-- One call of the kernel or of a C stream, with the answer where a property depends on it.
pub data Event : Type 0 where
  print : Stream → String → List Arg → Event
  kill : ℤ → ℕ → Option ℕ → Event
  waitpid : ℤ → Event
  clock_gettime : Event
  poll : ℤ → Event
  read_signalfd : Event
  query_idle : Event
  scan_proc : Event
  open_stat : ℤ → Event
  close_display : Event
  x_free : Event
  close : ℤ → Event
  allocate : ℕ → Event
  timerfd_create : Event
  timerfd_settime : ℤ → Timespec → Timespec → Event
  read_timer : ℤ → Event
  wayland_call : WaylandCall → Event
  request_idle_notification : Bool → ℕ → Event
  -- wl_registry_bind of an interface, by the name and with the version that it is given
  bind_interface : Kind → ℕ → ℕ → Event
  poll_many : List Pollfd → Event
  pidfd_open : ℤ → Event
  fork : Event
  -- with the errno where they fail
  sigprocmask : MaskChange → List ℕ → Option ℕ → Event
  execl : List (List ℕ) → Option ℕ → Event
  signalfd : Event
  open_display : Event
  query_extension : Event
  alloc_info : Event

-- An entry of /proc: whether it is a directory, and the bytes of its name.
pub record Dirent : Type 0 where
  pub is_directory : Bool
  pub d_name : List ℕ

-- Reading a timer: the number of bytes, or -1 with an errno.
pub data TimerRead : Type 0 where
  bytes_read : ℕ → TimerRead
  read_failed : ℕ → TimerRead

-- Reading the first line of a file: `fopen` fails with an errno, `fgets` fails, or there are bytes.
pub data StatFile : Type 0 where
  not_opened : ℕ → StatFile
  not_read : StatFile
  line : List ℕ → StatFile

-- A wait status: the code of a process that exited, or the signal that ended or stopped it.
pub data WaitStatus : Type 0 where
  exited_with : ℕ → WaitStatus
  killed_by : ℕ → WaitStatus
  stopped_by : ℕ → WaitStatus

-- An interface that the registry of a compositor announces.
pub record Global : Type 0 where
  pub name : ℕ
  pub interface : List ℕ
  pub version : ℕ

-- What the library calls back for: a registry's events, and those of an idle notification.
pub data RegistryCallback : Type 0 where
  global : Global → RegistryCallback
  global_remove : ℕ → RegistryCallback

pub data Callback : Type 0 where
  of_registry : RegistryCallback → Callback
  idled resumed : Callback

-- A dispatch: the callbacks that it makes, and then the errno if it fails.
pub record Dispatched : Type 0 where
  pub callbacks : List Callback
  pub failed : Option ℕ

-- The bits of `revents`.
pub record Revents : Type 0 where
  pub pollin : Bool
  pub pollout : Bool
  pub pollerr : Bool
  pub pollhup : Bool
  pub pollnval : Bool

-- poll(): -1 with an errno, or a number and the bits of each entry of the array.
pub data Polled : Type 0 where
  poll_failed : ℕ → Polled
  polled : ℕ → (ℕ → Revents) → Polled

-- fork() as the parent sees it: it fails with an errno, or gives the id of the child.
pub data Forked : Type 0 where
  fork_failed : ℕ → Forked
  forked : ℤ → Forked

-- The answers of the Wayland client library. A pointer is an address, or `none` for NULL.
pub record WaylandLibrary : Type 0 where
  -- by the name of a display, or with `none` by what the environment says
  pub display_connect : List Event → Option (List ℕ) → Option ℕ
  pub get_registry : List Event → Option ℕ
  pub roundtrip : List Event → List RegistryCallback
  -- by the name and the version of the interface
  pub bind : List Event → Kind → ℕ → ℕ → Option ℕ
  pub get_idle_notification : List Event → Option ℕ
  -- -1 or a descriptor
  pub get_fd : List Event → ℤ
  pub dispatch_pending : List Event → Dispatched
  pub dispatch : List Event → Dispatched
  -- the errno where it fails
  pub flush : List Event → Option ℕ

-- The variables that the program reads from its environment; `none` for one that is not set.
pub record Environment : Type 0 where
  pub wayland_display : Option (List ℕ)
  pub display : Option (List ℕ)
  pub xdg_runtime_dir : Option (List ℕ)
  pub xauthority : Option (List ℕ)
  pub home : Option (List ℕ)

-- The answers of the kernel, each by the events before it, newest first.
pub record Os : Type 0 where
  -- `none` is success, `some e` is -1 with errno e
  pub kill : List Event → ℤ → ℕ → Option ℕ
  -- with WNOHANG + WUNTRACED: `none` where the result is not the pid
  pub waitpid_nohang : List Event → ℤ → Option WaitStatus
  -- with no option: `none` where it fails
  pub waitpid_block : List Event → ℤ → Option WaitStatus
  pub clock_gettime : List Event → Timespec
  -- whether poll() on the one descriptor returns a positive number with POLLIN set
  pub poll_in : List Event → ℤ → Bool
  -- the signal numbers that successive reads of the signalfd return before one is short
  pub signalfd_reads : List Event → List ℕ
  pub query_idle : List Event → ℕ
  pub read_proc : List Event → Option (List Dirent)
  pub stat_file : List Event → ℤ → StatFile
  -- whether malloc or realloc of so many elements succeeds
  pub allocates : List Event → ℕ → Bool
  -- what an array holds that nothing was written to: one of bytes, and one of process ids
  pub uninitialised : List Event → ℕ → ℕ
  pub uninitialised_ids : List Event → ℕ → ℤ
  -- the descriptor, or -1
  pub timerfd_create : List Event → ℤ
  -- whether timerfd_settime fails
  pub settime_fails : List Event → ℤ → Bool
  pub read_timer : List Event → ℤ → TimerRead
  -- whether close fails, and with which errno
  pub close_fails : List Event → ℤ → Option ℕ
  -- errno, where no answer says it
  pub errno : List Event → ℕ
  pub isatty_stderr : Bool
  pub wayland : WaylandLibrary
  -- poll() on an array of descriptors, with no timeout
  pub poll_many : List Event → List Pollfd → Polled
  -- the descriptor, or -1 with an errno
  pub pidfd_open : List Event → ℤ → ℤ × ℕ
  pub fork : List Event → Forked
  -- the errno where they fail
  pub sigprocmask_fails : List Event → Option ℕ
  pub execl_fails : List Event → Option ℕ
  -- the descriptor, or -1
  pub signalfd : List Event → ℤ
  -- XOpenDisplay(NULL), by the environment
  pub x_open_display : Environment → Bool
  pub x_query_extension : List Event → Bool
  pub x_alloc_info : List Event → Bool

pub data PauseMethod : Type 0 where
  unknown sigtstp_method sigstop_method : PauseMethod

-- The static variables of wayland.c.
pub record Wayland : Type 0 where
  pub wayland_display : Option ℕ
  pub wayland_registry : Option ℕ
  pub wayland_seat : Option ℕ
  pub wayland_idle_notifier : Option ℕ
  pub wayland_idle_notifier_version : ℕ
  pub wayland_idle_notification : Option ℕ
  pub wayland_idle_notify_available : Bool

-- The variables of main.c that the loops read or write. `interruption_received` is 0 or a signal.
pub record Globals : Type 0 where
  pub external_pid : ℤ
  pub verbose : Bool
  pub quiet : Bool
  pub debug : Bool
  pub monitoring_started : Bool
  pub pause_method : PauseMethod
  pub start_monitor_after_ms : ℤ
  pub user_idle_timeout_ms : ℕ
  pub xscreensaver_is_available : Bool
  pub interruption_received : ℕ
  pub command_paused : Bool
  pub sigchld_received : Bool
  pub signal_fd : ℤ
  -- whether the pointers `x_display` and `xscreensaver_info` are not NULL
  pub x_display_open : Bool
  pub xscreensaver_info_allocated : Bool
  pub pid : ℤ
  pub wayland : Wayland
  pub environment : Environment

pub record State : Type 0 where
  pub globals : Globals
  pub open globals use *
  pub trace : List Event
