-- ===== src/Examples/Sessions.antt =====
-- The theorems on the graphical session, where /run has the sockets wayland-1 and wayland-0 and the
-- file wayland-0.lock, and /tmp/.X11-unix has the socket X1.
use runwhenidle.Prelude.{
  ℕ, ◌≤◌, ◌<◌, ◌≡◌, ◌⊎◌, refl, sym, subst, arith, true, false, none, some, List, [], ◌∷◌, length,
  if◌then◌else◌, ◌==◌,
}
use mathlib.Core.List.{Memᴰ}
use mathlib.Core.List.Memᴰ
use runwhenidle.Prelude.Int.{ℤ, pos, ◌≤ℤ◌}
use runwhenidle.Environment.Files.{Files, file_is_socket, socket, regular, is_string_null_or_empty}
use runwhenidle.Environment.Wayland.{
  path_max, path_in, is_candidate, find_best_wayland_socket_in_runtime_dir,
}
use runwhenidle.Environment.Wayland.Choice.{number}
use runwhenidle.Environment.Wayland.Lowest.{find_best_wayland_socket_lem}
use runwhenidle.Libc.Decimal.{print_int}
use runwhenidle.Environment.Display.{
  display_of, display_text, find_best_x11_display_from_socket_dir,
}
use runwhenidle.Environment.Display.Named.{display_of-display_text}
use runwhenidle.Environment.Display.Minimum.{find_best_x11_display_lem}
use runwhenidle.System.{Environment}
use runwhenidle.Environment.Session.{
  Session, User, best_effort_infer_graphical_session_environment_if_missing,
  open_x11_display_best_effort,
}
use runwhenidle.Environment.Session.Kept.{
  Keeps, KeepsIn, infer_keeps_variables, open_x11_display_lem,
}

abbrev run : List ℕ
run = b'/' ∷ b'r' ∷ b'u' ∷ b'n' ∷ []

abbrev wayland : ℕ → List ℕ → List ℕ
wayland digit rest = b'w' ∷ b'a' ∷ b'y' ∷ b'l' ∷ b'a' ∷ b'n' ∷ b'd' ∷ b'-' ∷ digit ∷ rest

abbrev wayland_names : List (List ℕ)
wayland_names =
    wayland b'1' [] ∷ wayland b'0' (b'.' ∷ b'l' ∷ b'o' ∷ b'c' ∷ b'k' ∷ []) ∷ wayland b'0' [] ∷ []

abbrev x11_names : List (List ℕ)
x11_names = (b'X' ∷ b'1' ∷ []) ∷ []

-- /run has 4 bytes and the path of the lock file 19.
abbrev pub files : Files
files = record {
  names = λ dir. if length dir == 4 then some wayland_names else some x11_names;
  stat = λ path. if length path == 19 then some regular else some socket;
  readable = λ _. true;
  accessible = λ _. true;
}

names_fit : (name : List ℕ) → Memᴰ name wayland_names → length name < 256
names_fit name (Memᴰ.head e) = subst (λ n. length n < 256) (sym e) (omega arith)
names_fit name (Memᴰ.tail (Memᴰ.head e)) = subst (λ n. length n < 256) (sym e) (omega arith)
names_fit name (Memᴰ.tail (Memᴰ.tail (Memᴰ.head e))) =
    subst (λ n. length n < 256) (sym e) (omega arith)
names_fit name (Memᴰ.tail (Memᴰ.tail (Memᴰ.tail m))) = absurd (Memᴰ.not-nil m)

find_best_wayland_socket_lem_example :
    ((path name : List ℕ)
      → find_best_wayland_socket_in_runtime_dir files run path_max 256 ≡ some (path, name)
      → (path ≡ path_in run name)
        × Memᴰ name wayland_names
        × (is_candidate files run name ≡ true)
        × ((other : List ℕ)
            → Memᴰ other wayland_names
            → is_candidate files run other ≡ true
            → number name ≤ number other))
    × (find_best_wayland_socket_in_runtime_dir files run path_max 256 ≡ none
        → (other : List ℕ) → Memᴰ other wayland_names
        → is_candidate files run other ≡ false)
find_best_wayland_socket_lem_example =
    find_best_wayland_socket_lem files run wayland_names 256 refl names_fit

find_best_x11_display_lem_example :
    ((text : List ℕ)
      → find_best_x11_display_from_socket_dir files ≡ some text
      → (n : ℤ) × (text ≡ b':' ∷ print_int n)
        × ((name : List ℕ) × Memᴰ name x11_names × (display_of files name ≡ some n))
        × ((name : List ℕ) (k : ℤ) → Memᴰ name x11_names → display_of files name ≡ some k → n ≤ℤ k))
    × (find_best_x11_display_from_socket_dir files ≡ none
        → (name : List ℕ) → Memᴰ name x11_names
        → display_of files name ≡ none)
find_best_x11_display_lem_example = find_best_x11_display_lem files x11_names refl

abbrev pub user : User
user = record { uid = 1000; pw_dir = none }

-- DISPLAY is set, but empty.
abbrev environment : Environment
environment = record {
  wayland_display = none;
  display = some [];
  xdg_runtime_dir = some run;
  xauthority = none;
  home = none;
}

abbrev session : Session
session = record { environment = environment; printed = [] }

infer_keeps_variables_example :
    KeepsIn session
      (best_effort_infer_graphical_session_environment_if_missing files user true session)
    × ((is_string_null_or_empty none ≡ false) ⊎ (is_string_null_or_empty (some []) ≡ false)
        → best_effort_infer_graphical_session_environment_if_missing files user true session
          ≡ session)
infer_keeps_variables_example = infer_keeps_variables files user true session

open_x11_display_lem_example :
    Keeps environment (open_x11_display_best_effort files user (λ _. false) environment).1
    × ((open_x11_display_best_effort files user (λ _. false) environment).0 ≡ false)
open_x11_display_lem_example = open_x11_display_lem files user (λ _. false) environment

display_1 : display_text (some (pos 1)) ≡ some (b':' ∷ b'1' ∷ [])
unfolding print_int
display_1 = refl

display_of-display_text_example : display_of files (b'X' ∷ b'1' ∷ []) ≡ some (pos 1)
unfolding file_is_socket
display_of-display_text_example =
    display_of-display_text files 1 (b'1' ∷ []) (omega arith) display_1 refl
