-- ===== src/Wayland.antt =====
-- The connection to a Wayland compositor (wayland.c). The client library and the announcements of
-- the compositor are answers of `Os.wayland`.
pub mod Notification
pub mod Connection
pub mod Opening
pub mod Session
pub mod Binding
pub mod Registry
pub mod Objects
pub mod Lives
pub mod Orderly
pub mod Safe
pub mod SetUp
pub mod LifeCycle
pub mod Request
pub mod Availability
use runwhenidle.Prelude.{
  ℕ, ◌^◌, ◌-◌, ◌%◌, Bool, true, false, not, ◌&&◌, ◌||◌, Option, none, some, List, [], ◌∷◌, ltb,
  if◌then◌else◌,
}
use runwhenidle.Prelude.Int.{ℤ, pos, negsuc}
use runwhenidle.System.{
  Os, Kind, notifier, notification, created, not_created, destroyed, used, Event, wayland_call,
  request_idle_notification, bind_interface, Global, RegistryCallback, global, global_remove,
  Environment, Wayland, State, Prog, ◌>>=◌, ◌>>◌, pure, crash, ask, gets, modify, emit, branch,
  when,
}
use runwhenidle.Environment.Files.{Files, is_string_null_or_empty}
use runwhenidle.Environment.Wayland.{path_max, find_best_wayland_socket_in_runtime_dir}
use runwhenidle.Arguments.Options.{strcmp_equal}
use runwhenidle.Environment.Session.{User, set_once, build_default_xdg_runtime_dir_for_current_user}

abbrev pub uint32_max : ℕ
uint32_max = 2 ^ 32 - 1

-- "wl_seat"
abbrev pub wl_seat : List ℕ
wl_seat = b'w' ∷ b'l' ∷ b'_' ∷ b's' ∷ b'e' ∷ b'a' ∷ b't' ∷ []

-- "ext_idle_notifier_v1"
abbrev pub ext_idle_notifier_v1 : List ℕ
ext_idle_notifier_v1 =
    b'e' ∷ b'x' ∷ b't' ∷ b'_' ∷ b'i' ∷ b'd' ∷ b'l' ∷ b'e' ∷ b'_' ∷ b'n' ∷ b'o' ∷ b't' ∷ b'i' ∷ b'f'
    ∷ b'i' ∷ b'e' ∷ b'r' ∷ b'_' ∷ b'v' ∷ b'1' ∷ []

abbrev pub is_null : Option ℕ → Bool
is_null none = true
is_null (some address) = false

-- A call of the library that returns a new object or NULL.
abbrev pub created_or_not : Kind → Option ℕ → Event
created_or_not kind none = wayland_call (not_created kind)
created_or_not kind (some address) = wayland_call (created kind address)

-- Passing a pointer to the library, which must not be NULL.
unfoldable pub pass : Kind → Option ℕ → Prog (Unit {0})
pass kind none = crash
pass kind (some address) = emit (wayland_call (used kind address))

-- A call that takes the display and returns something else than an object.
unfoldable pub call_display : {A : Type 0} → (List Event → A) → Option ℕ → Prog A
call_display answer none = crash
call_display answer (some address) = ask answer (λ _. wayland_call (used Kind.display address))

unfoldable pub set_wayland : (Wayland → Wayland) → Prog (Unit {0})
set_wayland f = modify (λ g. record g { wayland = f g.wayland })

-- if (pointer) { destroy(pointer); pointer = NULL; }
unfoldable pub release_object : Kind → (Wayland → Wayland) → Option ℕ → Prog (Unit {0})
release_object kind clear none = pure tt
release_object kind clear (some address) = do
  emit (wayland_call (destroyed kind address))
  set_wayland clear

unfoldable pub release : Kind → (Wayland → Option ℕ) → (Wayland → Wayland) → Prog (Unit {0})
release kind pointer clear = do
  address ← gets (λ s. pointer s.wayland)
  release_object kind clear address

abbrev pub clear_display : Wayland → Wayland
clear_display w = record w { wayland_display = none }

abbrev pub clear_registry : Wayland → Wayland
clear_registry w = record w { wayland_registry = none }

abbrev pub clear_seat : Wayland → Wayland
clear_seat w = record w { wayland_seat = none }

abbrev pub clear_notifier : Wayland → Wayland
clear_notifier w = record w { wayland_idle_notifier = none }

abbrev pub clear_notification : Wayland → Wayland
clear_notification w = record w { wayland_idle_notification = none }

-- The two variables that are set after a connection by the path of a socket.
abbrev name_session : List ℕ → List ℕ → Environment → Environment
name_session runtime_dir socket_name env = record env {
  xdg_runtime_dir =
      if is_string_null_or_empty env.xdg_runtime_dir
      then set_once env.xdg_runtime_dir runtime_dir
      else env.xdg_runtime_dir;
  wayland_display =
      if is_string_null_or_empty env.wayland_display
      then set_once env.wayland_display socket_name
      else env.wayland_display;
}

-- `wayland_registry_global`, for the registry at this address.
module _ (os : Os) (registry : ℕ) where
  abbrev bind : Kind → ℕ → ℕ → Prog (Option ℕ)
  bind kind name version = do
    pass Kind.registry (some registry)
    emit (bind_interface kind name version)
    ask (λ h. os.wayland.bind h kind name version) (created_or_not kind)

  unfoldable pub wayland_registry_global : Global → Prog (Unit {0})
  wayland_registry_global g =
      branch (λ s. strcmp_equal g.interface wl_seat && is_null s.wayland.wayland_seat)
        (do seat ← bind Kind.seat g.name 1; set_wayland (λ w. record w { wayland_seat = seat }))
        (when
          (λ s.
            strcmp_equal g.interface ext_idle_notifier_v1
            && is_null s.wayland.wayland_idle_notifier)
          (do
            set_wayland (λ w. record w {
              wayland_idle_notifier_version = if ltb g.version 2 then g.version else 2;
            })
            object ← bind notifier g.name (if ltb g.version 2 then g.version else 2)
            set_wayland (λ w. record w { wayland_idle_notifier = object })))

  unfoldable pub registry_callback : RegistryCallback → Prog (Unit {0})
  registry_callback (global g) = wayland_registry_global g
  registry_callback (global_remove name) = pure tt

  unfoldable pub registry_callbacks : List RegistryCallback → Prog (Unit {0})
  registry_callbacks [] = pure tt
  registry_callbacks (c ∷ rest) = do registry_callback c; registry_callbacks rest

module _ (os : Os) (files : Files) (user : User) where
  display_connect : Option (List ℕ) → Prog (Option ℕ)
  display_connect name = ask (λ h. os.wayland.display_connect h name) (created_or_not Kind.display)

  -- The end of `connect_to_wayland_best_effort`.
  name_if_connected : List ℕ → List ℕ → Option ℕ → Prog (Option ℕ)
  name_if_connected runtime_dir socket_name none = pure none
  name_if_connected runtime_dir socket_name (some address) = do
    modify (λ g. record g { environment = name_session runtime_dir socket_name g.environment })
    pure (some address)

  connect_to_socket : List ℕ → Option (List ℕ × List ℕ) → Prog (Option ℕ)
  connect_to_socket runtime_dir none = pure none
  connect_to_socket runtime_dir (some (path, name)) = do
    display ← display_connect (some path)
    name_if_connected runtime_dir name display

  connect_in : Option (List ℕ) → Prog (Option ℕ)
  connect_in none = pure none
  connect_in (some runtime_dir) =
      connect_to_socket runtime_dir
        (find_best_wayland_socket_in_runtime_dir files runtime_dir path_max 256)

  connect_unless : Option ℕ → Prog (Option ℕ)
  connect_unless (some address) = pure (some address)
  connect_unless none = do
    runtime_dir ← gets (λ s.
        if is_string_null_or_empty s.environment.xdg_runtime_dir
        then build_default_xdg_runtime_dir_for_current_user files user
        else s.environment.xdg_runtime_dir)
    connect_in runtime_dir

  connect_to_wayland_best_effort : Prog (Option ℕ)
  connect_to_wayland_best_effort = do display ← display_connect none; connect_unless display

  is_bound : State → Bool
  is_bound s = not (is_null s.wayland.wayland_seat || is_null s.wayland.wayland_idle_notifier)

  -- What was created is destroyed again. The seat and the notifier are set to NULL at once and not at
  -- the end; nothing reads them in between.
  abandon_session : ℕ → ℕ → Prog (Unit {0})
  abandon_session display registry = do
    release notifier (λ w. w.wayland_idle_notifier) clear_notifier
    release Kind.seat (λ w. w.wayland_seat) clear_seat
    emit (wayland_call (destroyed Kind.registry registry))
    set_wayland clear_registry
    emit (wayland_call (destroyed Kind.display display))
    set_wayland (λ w. record w {
      wayland_display = none;
      wayland_seat = none;
      wayland_idle_notifier = none;
      wayland_idle_notify_available = false;
    })

  initialize_registry : ℕ → Option ℕ → Prog Bool
  initialize_registry display none = do
    emit (wayland_call (destroyed Kind.display display))
    set_wayland clear_display
    pure false
  initialize_registry display (some registry) = do
    pass Kind.registry (some registry)
    callbacks ← call_display os.wayland.roundtrip (some display)
    registry_callbacks os registry callbacks
    branch is_bound
        (do set_wayland (λ w. record w { wayland_idle_notify_available = true }); pure true)
        (do abandon_session display registry; pure false)

  pub initialize_display : Option ℕ → Prog Bool
  initialize_display none = pure false
  initialize_display (some display) = do
    pass Kind.display (some display)
    registry ← ask os.wayland.get_registry (created_or_not Kind.registry)
    set_wayland (λ w. record w { wayland_registry = registry })
    initialize_registry display registry

  pub try_initialize_wayland_idle_backend : Prog Bool
  try_initialize_wayland_idle_backend = do
    display ← connect_to_wayland_best_effort
    set_wayland (λ w. record w { wayland_display = display })
    initialize_display display

  -- The end of `try_monitor_wayland_idle_notify`.
  pub release_session : Prog (Unit {0})
  release_session = do
    release notification (λ w. w.wayland_idle_notification) clear_notification
    release notifier (λ w. w.wayland_idle_notifier) clear_notifier
    release Kind.seat (λ w. w.wayland_seat) clear_seat
    release Kind.registry (λ w. w.wayland_registry) clear_registry
    release Kind.display (λ w. w.wayland_display) clear_display

  -- The loop is an argument, as in the source.
  pub try_monitor_wayland_idle_notify : (Option ℕ → Prog ℤ) → Prog ℤ
  try_monitor_wayland_idle_notify wayland_loop_function = do
    initialized ← try_initialize_wayland_idle_backend
    branch (λ _. initialized)
        (do
          display ← gets (λ s. s.wayland.wayland_display)
          result ← wayland_loop_function display
          release_session
          pure result)
        (pure (negsuc 0))

-- `start_wayland_idle_notification_object`
module _ (os : Os) where
  abbrev pub timeout_ms_for_protocol : ℕ → ℕ
  timeout_ms_for_protocol timeout = if ltb uint32_max timeout then uint32_max else timeout % 2 ^ 32

  request_notification : Prog (Option ℕ)
  request_notification = do
    g ← gets (λ s. s.globals)
    pass notifier g.wayland.wayland_idle_notifier
    pass Kind.seat g.wayland.wayland_seat
    emit (
        request_idle_notification (not (ltb g.wayland.wayland_idle_notifier_version 2))
          (timeout_ms_for_protocol g.user_idle_timeout_ms))
    ask os.wayland.get_idle_notification (created_or_not notification)

  listen_if_created : Option ℕ → Prog ℤ
  listen_if_created none = pure (negsuc 0)
  listen_if_created (some address) = do
    pass notification (some address)
    display ← gets (λ s. s.wayland.wayland_display)
    pass Kind.display display
    pure (pos 1)

  pub start_wayland_idle_notification_object : Prog ℤ
  start_wayland_idle_notification_object =
      branch (λ s. not (is_null s.wayland.wayland_idle_notification)) (pure (pos 0))
        (branch (λ s. not s.wayland.wayland_idle_notify_available) (pure (negsuc 0))
          (do
            object ← request_notification
            set_wayland (λ w. record w { wayland_idle_notification = object })
            listen_if_created object))
