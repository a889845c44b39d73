-- ===== src/Environment/Session/Kept.antt =====
-- No variable that is set is changed.
use runwhenidle.Prelude.{
  ℕ, String, ◌≡◌, refl, sym, ap, ◌⊎◌, Bool, true, false, not, ◌||◌, Option, none, some, List,
  if◌then◌else◌, arith,
}
use runwhenidle.System.{Arg}
use runwhenidle.Environment.Files.{Files, is_string_null_or_empty}
use runwhenidle.Environment.Display.{find_best_x11_display_from_socket_dir}
use runwhenidle.System.{Environment}
use runwhenidle.Environment.Session.{
  Session, User, set_once, print_if, set_xauthority, set_xauthority_in,
  ensure_xauthority_is_set_if_possible, set_runtime_dir, infer_runtime_dir, set_wayland_display,
  infer_wayland_display, set_display, infer_display, print_session,
  best_effort_infer_graphical_session_environment_if_missing, set_display_and_open,
  open_x11_display_best_effort,
}

-- A variable that is set stays as it is.
abbrev pub Stays : Option (List ℕ) → Option (List ℕ) → Type 0
Stays before after = (value : List ℕ) → before ≡ some value → after ≡ some value

pub record Keeps (before after : Environment) : Type 0 where
  pub wayland : Stays before.wayland_display after.wayland_display
  pub display_kept : Stays before.display after.display
  pub runtime_dir : Stays before.xdg_runtime_dir after.xdg_runtime_dir
  pub authority : Stays before.xauthority after.xauthority
  pub home_dir : Stays before.home after.home

set_once-Stays : (before : Option (List ℕ)) (value : List ℕ) → Stays before (set_once before value)
set_once-Stays none value v e = ground arith
set_once-Stays (some old) value v e = e

Keeps-refl : (e : Environment) → Keeps e e
Keeps-refl e = record {
  wayland = λ v h. h;
  display_kept = λ v h. h;
  runtime_dir = λ v h. h;
  authority = λ v h. h;
  home_dir = λ v h. h;
}

Keeps-trans : {a b c : Environment} → Keeps a b → Keeps b c → Keeps a c
Keeps-trans p q = record {
  wayland = λ v h. q.wayland v (p.wayland v h);
  display_kept = λ v h. q.display_kept v (p.display_kept v h);
  runtime_dir = λ v h. q.runtime_dir v (p.runtime_dir v h);
  authority = λ v h. q.authority v (p.authority v h);
  home_dir = λ v h. q.home_dir v (p.home_dir v h);
}

print_if-environment :
    (b : Bool) (format : String) (args : List Arg) (s : Session)
    → (print_if b format args s).environment ≡ s.environment
print_if-environment true format args s = refl
print_if-environment false format args s = refl

Keeps-if : (b : Bool) (e x y : Environment) → Keeps e x → Keeps e y → Keeps e (if b then x else y)
Keeps-if true e x y h k = h
Keeps-if false e x y h k = k

-- The same for sessions.
abbrev pub KeepsIn : Session → Session → Type 0
KeepsIn s t = Keeps s.environment t.environment

KeepsIn-if :
    (b : Bool) (s x y : Session) → KeepsIn s x → KeepsIn s y → KeepsIn s (if b then x else y)
KeepsIn-if true s x y h k = h
KeepsIn-if false s x y h k = k

KeepsIn-print :
    (b : Bool) (format : String) (args : List Arg) (s t : Session)
    → KeepsIn s t
    → KeepsIn s (print_if b format args t)
KeepsIn-print true format args s t h = h
KeepsIn-print false format args s t h = h

Keeps-update :
    (e : Environment) (w d x a : Option (List ℕ))
    → Stays e.wayland_display w
    → Stays e.display d
    → Stays e.xdg_runtime_dir x
    → Stays e.xauthority a
    → Keeps e (record e { wayland_display = w; display = d; xdg_runtime_dir = x; xauthority = a })
Keeps-update e w d x a hw hd hx ha = record {
  wayland = hw;
  display_kept = hd;
  runtime_dir = hx;
  authority = ha;
  home_dir = λ v h. h;
}

module _ (files : Files) (user : User) where
  Keeps-set_xauthority :
      (path : Option (List ℕ)) (e : Environment) → Keeps e (set_xauthority files user path e)
  unfolding set_xauthority
  Keeps-set_xauthority none e = Keeps-refl e
  Keeps-set_xauthority (some path) e =
      Keeps-if _ e _ _
        (Keeps-update e _ _ _ _ (λ v h. h) (λ v h. h) (λ v h. h) (set_once-Stays e.xauthority path))
        (Keeps-refl e)

  Keeps-set_xauthority_in :
      (home : Option (List ℕ)) (e : Environment) → Keeps e (set_xauthority_in files user home e)
  unfolding set_xauthority_in
  Keeps-set_xauthority_in none e = Keeps-refl e
  Keeps-set_xauthority_in (some home) e = Keeps-set_xauthority _ e

  Keeps-ensure : (e : Environment) → Keeps e (ensure_xauthority_is_set_if_possible files user e)
  unfolding ensure_xauthority_is_set_if_possible
  Keeps-ensure e = Keeps-if _ e _ _ (Keeps-set_xauthority_in _ e) (Keeps-refl e)

  Keeps-set_runtime_dir :
      (verbose : Bool) (dir : Option (List ℕ)) (s : Session)
      → KeepsIn s (set_runtime_dir files user verbose dir s)
  unfolding set_runtime_dir
  Keeps-set_runtime_dir verbose none s = Keeps-refl s.environment
  Keeps-set_runtime_dir verbose (some dir) s = KeepsIn-print verbose _ _ s _ (
      Keeps-update s.environment _ _ _ _ (λ v h. h) (λ v h. h)
        (set_once-Stays s.environment.xdg_runtime_dir dir) (λ v h. h))

  Keeps-set_wayland_display :
      (verbose : Bool) (found : Option (List ℕ × List ℕ)) (s : Session)
      → KeepsIn s (set_wayland_display files user verbose found s)
  unfolding set_wayland_display
  Keeps-set_wayland_display verbose none s = Keeps-refl s.environment
  Keeps-set_wayland_display verbose (some (path, name)) s = KeepsIn-print verbose _ _ s _ (
      Keeps-update s.environment _ _ _ _ (set_once-Stays s.environment.wayland_display name)
        (λ v h. h) (λ v h. h) (λ v h. h))

  Keeps-set_display :
      (verbose : Bool) (found : Option (List ℕ)) (s : Session)
      → KeepsIn s (set_display files user verbose found s)
  unfolding set_display
  Keeps-set_display verbose none s = Keeps-refl s.environment
  Keeps-set_display verbose (some found) s =
      Keeps-trans
        (KeepsIn-print verbose _ _ s _ (
          Keeps-update s.environment _ _ _ _ (λ v h. h) (set_once-Stays s.environment.display found)
            (λ v h. h) (λ v h. h)))
        (Keeps-ensure _)

  Keeps-infer_runtime_dir :
      (verbose : Bool) (s : Session) → KeepsIn s (infer_runtime_dir files user verbose s)
  unfolding infer_runtime_dir
  Keeps-infer_runtime_dir verbose s =
      KeepsIn-if _ s _ _ (Keeps-set_runtime_dir verbose _ s) (Keeps-refl s.environment)

  Keeps-infer_wayland_display :
      (verbose : Bool) (dir : Option (List ℕ)) (s : Session)
      → KeepsIn s (infer_wayland_display files user verbose dir s)
  unfolding infer_wayland_display
  Keeps-infer_wayland_display verbose none s = Keeps-refl s.environment
  Keeps-infer_wayland_display verbose (some dir) s =
      KeepsIn-if _ s _ _ (Keeps-set_wayland_display verbose _ s) (Keeps-refl s.environment)

  Keeps-infer_display :
      (verbose : Bool) (s : Session) → KeepsIn s (infer_display files user verbose s)
  unfolding infer_display
  Keeps-infer_display verbose s =
      KeepsIn-if _ s _ _ (Keeps-set_display verbose _ s) (Keeps-refl s.environment)

if_true {ℓ} : {A : Type ℓ} (b : Bool) (x y : A) → b ≡ true → (if b then x else y) ≡ x
if_true b x y e = ap (λ c. if c then x else y) e

is_given : (a b : Bool) → (a ≡ false) ⊎ (b ≡ false) → not a || not b ≡ true
is_given a b h = ground arith

-- Whatever is found, each variable that was set keeps its value, an empty one too; and where there is
-- a WAYLAND_DISPLAY or a DISPLAY that is not empty, nothing is changed or printed.
pub infer_keeps_variables :
    (files : Files) (user : User) (verbose : Bool) (s : Session)
    → KeepsIn s (best_effort_infer_graphical_session_environment_if_missing files user verbose s)
      × ((is_string_null_or_empty s.environment.wayland_display ≡ false)
            ⊎ (is_string_null_or_empty s.environment.display ≡ false)
          → best_effort_infer_graphical_session_environment_if_missing files user verbose s ≡ s)
unfolding best_effort_infer_graphical_session_environment_if_missing print_session
infer_keeps_variables files user verbose s = (
  KeepsIn-if _ s _ _ (Keeps-refl s.environment) (
      KeepsIn-print verbose _ _ s _ (
        Keeps-trans (Keeps-infer_runtime_dir files user verbose s) (
          Keeps-trans (Keeps-infer_wayland_display files user verbose _ _)
            (Keeps-infer_display files user verbose _)))),
  λ given. if_true _ s _ (is_given _ _ given),
)

module _ (files : Files) (user : User) (opens : Environment → Bool) (e : Environment) where
  abbrev IsOpened : Bool × Environment → Type 0
  IsOpened r = Keeps e r.1 × (r.0 ≡ opens r.1)

  IsOpened-if :
      (b : Bool) (x y : Bool × Environment)
      → (b ≡ true → IsOpened x)
      → (b ≡ false → IsOpened y)
      → IsOpened (if b then x else y)
  IsOpened-if true x y h k = h refl
  IsOpened-if false x y h k = k refl

  IsOpened-set :
      (found : Option (List ℕ))
      → opens e ≡ false
      → IsOpened (set_display_and_open files user opens found e)
  unfolding set_display_and_open
  IsOpened-set none shut = (Keeps-refl e, sym shut)
  IsOpened-set (some text) shut = (
    Keeps-trans
        (Keeps-update e _ _ _ _ (λ v h. h) (set_once-Stays e.display text) (λ v h. h) (λ v h. h))
        (Keeps-ensure files user _),
    refl,
  )

-- Opening a display changes no variable that was set, and says that it is open exactly if XOpenDisplay
-- opens one with the variables as they are left.
pub open_x11_display_lem :
    (files : Files) (user : User) (opens : Environment → Bool) (e : Environment)
    → Keeps e (open_x11_display_best_effort files user opens e).1
      × ((open_x11_display_best_effort files user opens e).0
          ≡ opens (open_x11_display_best_effort files user opens e).1)
unfolding open_x11_display_best_effort
open_x11_display_lem files user opens e =
    IsOpened-if files user opens e (opens e) _ _ (λ t. (Keeps-refl e, sym t))
      (λ shut.
        let found = find_best_x11_display_from_socket_dir files in
        IsOpened-if files user opens e (not (is_string_null_or_empty e.display)) (false, e)
          (set_display_and_open files user opens found e) (λ _. (Keeps-refl e, sym shut))
          (λ _. IsOpened-set files user opens e found shut))
