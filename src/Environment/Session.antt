-- ===== src/Environment/Session.antt =====
-- The functions of environment_guessing.c that read and set environment variables.
pub mod Kept
use runwhenidle.Prelude.{
  ℕ, ◌+◌, ◌-◌, String, Bool, true, false, not, ◌&&◌, ◌||◌, Option, none, some, List, [], ◌∷◌, ◌++◌,
  length, take, ltb, ◌==◌, if◌then◌else◌,
}
use runwhenidle.Prelude.Int.{pos}
use runwhenidle.System.{Arg, Environment}
use runwhenidle.Environment.Files.{
  Files, is_string_null_or_empty, file_is_readable_regular_file, directory_exists_and_accessible,
}
use runwhenidle.Environment.Wayland.{path_max, find_best_wayland_socket_in_runtime_dir}
use runwhenidle.Libc.Decimal.{print_int}
use runwhenidle.Environment.Display.{find_best_x11_display_from_socket_dir}

-- The environment, and what was printed to stderr, newest first.
pub record Session : Type 0 where
  pub environment : Environment
  pub printed : List (String × List Arg)

-- Who runs the program: getuid, and pw_dir of getpwuid, with `none` for NULL.
pub record User : Type 0 where
  pub uid : ℕ
  pub pw_dir : Option (List ℕ)

-- setenv with overwrite 0: a variable that is set stays, an empty one too.
abbrev pub set_once : Option (List ℕ) → List ℕ → Option (List ℕ)
set_once none value = some value
set_once (some old) value = some old

-- A string that snprintf has written into an array of so many bytes.
abbrev pub written : ℕ → List ℕ → List ℕ
written size text = take (size - 1) text

abbrev pub print_if : Bool → String → List Arg → Session → Session
print_if true format args s = record s { printed = (format, args) ∷ s.printed }
print_if false format args s = s

-- "(unset)"
abbrev or_unset : Option (List ℕ) → List ℕ
or_unset none = b'(' ∷ b'u' ∷ b'n' ∷ b's' ∷ b'e' ∷ b't' ∷ b')' ∷ []
or_unset (some value) = value

-- "/.Xauthority"
abbrev pub xauthority_suffix : List ℕ
xauthority_suffix =
    b'/' ∷ b'.' ∷ b'X' ∷ b'a' ∷ b'u' ∷ b't' ∷ b'h' ∷ b'o' ∷ b'r' ∷ b'i' ∷ b't' ∷ b'y' ∷ []

-- "/run/user/"
abbrev pub run_user : List ℕ
run_user = b'/' ∷ b'r' ∷ b'u' ∷ b'n' ∷ b'/' ∷ b'u' ∷ b's' ∷ b'e' ∷ b'r' ∷ b'/' ∷ []

module _ (files : Files) (user : User) where
  -- `none` where it returns 0, as for the next two.
  pub get_home_directory_for_current_user : Environment → Option (List ℕ)
  get_home_directory_for_current_user env =
      if is_string_null_or_empty env.home
      then elim user.pw_dir [ none ↦ none | some dir ↦ some (written path_max dir) ]
      else elim env.home [ none ↦ none | some dir ↦ some (written path_max dir) ]

  pub build_xauthority_path_from_home_dir : ℕ → List ℕ → Option (List ℕ)
  build_xauthority_path_from_home_dir size home_dir =
      if length home_dir == 0 || ltb size (length home_dir + length xauthority_suffix + 1)
      then none
      else some (home_dir ++ xauthority_suffix)

  pub build_default_xdg_runtime_dir_for_current_user : Option (List ℕ)
  build_default_xdg_runtime_dir_for_current_user =
      let dir = run_user ++ print_int (pos user.uid) in
      if directory_exists_and_accessible files dir then some dir else none

  -- The path, if it is that of a readable file.
  set_xauthority : Option (List ℕ) → Environment → Environment
  set_xauthority none env = env
  set_xauthority (some path) env =
      if file_is_readable_regular_file files path
      then record env { xauthority = set_once env.xauthority path }
      else env

  set_xauthority_in : Option (List ℕ) → Environment → Environment
  set_xauthority_in none env = env
  set_xauthority_in (some home_dir) env =
      set_xauthority (build_xauthority_path_from_home_dir path_max home_dir) env

  pub ensure_xauthority_is_set_if_possible : Environment → Environment
  ensure_xauthority_is_set_if_possible env =
      if is_string_null_or_empty env.xauthority
      then set_xauthority_in (get_home_directory_for_current_user env) env
      else env

  -- The three parts of `best_effort_infer_graphical_session_environment_if_missing`.
  set_runtime_dir : Bool → Option (List ℕ) → Session → Session
  set_runtime_dir verbose none s = s
  set_runtime_dir verbose (some dir) s =
      print_if verbose "XDG_RUNTIME_DIR was missing in env and got inferred to \"%s\"\n"
        (Arg.text dir ∷ [])
        (record s {
          environment = record s.environment {
            xdg_runtime_dir = set_once s.environment.xdg_runtime_dir dir;
          };
        })

  infer_runtime_dir : Bool → Session → Session
  infer_runtime_dir verbose s =
      if is_string_null_or_empty s.environment.xdg_runtime_dir
      then set_runtime_dir verbose build_default_xdg_runtime_dir_for_current_user s
      else s

  set_wayland_display : Bool → Option (List ℕ × List ℕ) → Session → Session
  set_wayland_display verbose none s = s
  set_wayland_display verbose (some (path, name)) s =
      print_if verbose "WAYLAND_DISPLAY was missing in env and got inferred to \"%s\"\n"
        (Arg.text name ∷ [])
        (record s {
          environment = record s.environment {
            wayland_display = set_once s.environment.wayland_display name;
          };
        })

  -- `runtime_dir` is the variable after the first part.
  infer_wayland_display : Bool → Option (List ℕ) → Session → Session
  infer_wayland_display verbose none s = s
  infer_wayland_display verbose (some runtime_dir) s =
      if not (is_string_null_or_empty (some runtime_dir))
        && is_string_null_or_empty s.environment.wayland_display
      then set_wayland_display verbose
          (find_best_wayland_socket_in_runtime_dir files runtime_dir path_max 256) s
      else s

  set_display : Bool → Option (List ℕ) → Session → Session
  set_display verbose none s = s
  set_display verbose (some found) s =
      let t =
        print_if verbose "DISPLAY was missing in env and got inferred to \"%s\"\n"
          (Arg.text found ∷ [])
          (record s {
            environment = record s.environment { display = set_once s.environment.display found };
          }) in
      record t { environment = ensure_xauthority_is_set_if_possible t.environment }

  infer_display : Bool → Session → Session
  infer_display verbose s =
      if is_string_null_or_empty s.environment.display
      then set_display verbose (find_best_x11_display_from_socket_dir files) s
      else s

  print_session : Bool → Session → Session
  print_session verbose s =
      print_if verbose "session vars: XDG_RUNTIME_DIR=%s WAYLAND_DISPLAY=%s DISPLAY=%s\n"
        (Arg.text (or_unset s.environment.xdg_runtime_dir)
          ∷ Arg.text (or_unset s.environment.wayland_display)
          ∷ Arg.text (or_unset s.environment.display)
          ∷ [])
        s

  pub best_effort_infer_graphical_session_environment_if_missing : Bool → Session → Session
  best_effort_infer_graphical_session_environment_if_missing verbose s =
      if not (is_string_null_or_empty s.environment.wayland_display)
        || not (is_string_null_or_empty s.environment.display)
      then s
      else let with_dir = infer_runtime_dir verbose s in
        let with_wayland =
          infer_wayland_display verbose with_dir.environment.xdg_runtime_dir with_dir in
        print_session verbose (infer_display verbose with_wayland)

  -- `opens` is XOpenDisplay(NULL), by the environment.
  set_display_and_open : (Environment → Bool) → Option (List ℕ) → Environment → Bool × Environment
  set_display_and_open opens none env = (false, env)
  set_display_and_open opens (some found) env =
      let env' =
        ensure_xauthority_is_set_if_possible
          (record env { display = set_once env.display found }) in
      (opens env', env')

  pub open_x11_display_best_effort : (Environment → Bool) → Environment → Bool × Environment
  open_x11_display_best_effort opens env =
      if opens env
      then (true, env)
      else if not (is_string_null_or_empty env.display)
      then (false, env)
      else set_display_and_open opens (find_best_x11_display_from_socket_dir files) env
