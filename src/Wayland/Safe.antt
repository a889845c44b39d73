-- ===== src/Wayland/Safe.antt =====
-- Programs that keep the display and leave the variables pointing to what is alive, with a rule for each
-- construct of the event loop.
use runwhenidle.Prelude.{
  ℕ, zero, suc, ◌≡◌, refl, sym, ap, ◌∙◌, String, Bool, true, false, Option, none, some, List, ◌∷◌,
}
use runwhenidle.System.{
  Os, Event, Arg, Kind, Globals, State, RegistryCallback, Prog, Round, again, done, ◌>>=◌, pure,
  gets, modify, ask, branch, when, forever, fprintf_stderr, fprintf_error, calls, Mute, Mute-pure,
  Mute-gets, Mute-modify, Mute-ask, Mute-stderr, Mute-error,
}
use runwhenidle.Wayland.{call_display, registry_callback, start_wayland_idle_notification_object}
use runwhenidle.Wayland.Objects.{get}
use runwhenidle.Wayland.Lives.{
  Lives, Lives-pre, Lives-post, Lives-Mute, Lives-bind, Lives-bind_gets, Lives-either,
  Lives-display,
}
use runwhenidle.Wayland.Orderly.{
  Matches, HasDisplay, registry_callback-Lives, start_notification-Lives,
}

pub record Safe (d : Option ℕ) {A : Type 0} (m : Prog A) : Type 0 where
  pub lives : Lives (Matches (HasDisplay d)) m (λ _. Matches (HasDisplay d))

module _ {d : Option ℕ} {A : Type 0} where
  pub Safe-Mute : {m : Prog A} → Mute m → Safe d m
  Safe-Mute q = record { lives = Lives-Mute q }

  pub Safe-pure : (a : A) → Safe d (pure a)
  Safe-pure a = Safe-Mute (Mute-pure a)

  pub Safe-gets : (f : State → A) → Safe d (gets f)
  Safe-gets f = Safe-Mute (Mute-gets f)

  pub Safe-ask :
      (answer : List Event → A) (event : A → Event)
      → ((a : A) (tr : List Event) → calls (event a ∷ tr) ≡ calls tr)
      → Safe d (ask answer event)
  Safe-ask answer event h = Safe-Mute (Mute-ask answer event h)

  pub Safe-branch :
      (test : State → Bool) (m n : Prog A) → Safe d m → Safe d n → Safe d (branch test m n)
  Safe-branch test m n f g = record { lives = Lives-either test f.lives g.lives }

  pub Safe-display : (answer : List Event → A) → Safe d (call_display answer d)
  Safe-display answer = record {
    lives = Lives-display answer d (λ w o h. ap (get Kind.display) h.0 ∙ h.1);
  }

module _ {d : Option ℕ} where
  pub Safe-modify :
      (f : Globals → Globals) → ((g : Globals) → (f g).wayland ≡ g.wayland) → Safe d (modify f)
  Safe-modify f h = Safe-Mute (Mute-modify f h)

  pub Safe-stderr : (format : String) (args : List Arg) → Safe d (fprintf_stderr format args)
  Safe-stderr format args = Safe-Mute (Mute-stderr format args)

  pub Safe-error :
      (os : Os) (format : String) (args : List Arg) → Safe d (fprintf_error os format args)
  Safe-error os format args = Safe-Mute (Mute-error os format args)

  pub Safe-when : (test : State → Bool) (m : Prog (Unit {0})) → Safe d m → Safe d (when test m)
  unfolding when
  Safe-when test m f = Safe-branch test m (pure tt) f (Safe-pure tt)

  pub Safe-start : (os : Os) → Safe d (start_wayland_idle_notification_object os)
  Safe-start os = record { lives = start_notification-Lives os d }

pub Safe-bind :
    {d : Option ℕ} {A B : Type 0} (m : Prog A) (f : A → Prog B)
    → Safe d m
    → ((a : A) → Safe d (f a))
    → Safe d (m >>= f)
Safe-bind m f q k = record { lives = Lives-bind q.lives (λ a. (k a).lives) }

pub ruleset safe_rules = (
  Safe-pure, Safe-gets, Safe-ask, Safe-branch, Safe-display, Safe-modify, Safe-stderr, Safe-error,
  Safe-when, Safe-start, Safe-bind, refl,
)

module _ {d : Option ℕ} {S R : Type 0} where
  next_round :
      (body : S → Prog (Round S R)) (rounds : ℕ)
      → ((x : S) → Safe d (forever rounds body x))
      → (r : Round S R)
      → Safe d (elim r as (λ _. Prog R) [ again y ↦ forever rounds body y | done a ↦ pure a ])
  next_round body rounds k (again y) = k y
  next_round body rounds k (done a) = Safe-pure a

  pub Safe-forever :
      (body : S → Prog (Round S R))
      → ((x : S) → Safe d (body x))
      → (rounds : ℕ) (x : S) → Safe d (forever rounds body x)
  unfolding forever
  Safe-forever body f zero x = record { lives = record { run = λ s q h. q } }
  Safe-forever body f (suc rounds) x =
      let step =
        Safe-bind (body x) _ (f x) (next_round body rounds (λ y. Safe-forever body f rounds y)) in
      record { lives = record { run = λ s q h. step.lives.run s q h } }

-- An announcement to the registry that the variable points to.
pub Safe-on_registry :
    {d : Option ℕ} (f : Option ℕ → Prog (Unit {0}))
    → ((p : Option ℕ)
        → Lives
            (λ w o. Matches (HasDisplay d) w o × (w.wayland_registry ≡ p))
            (f p)
            (λ _. Matches (HasDisplay d)))
    → Safe d (gets (λ s. s.wayland.wayland_registry) >>= f)
Safe-on_registry f k = record { lives = Lives-bind_gets (λ w. w.wayland_registry) k }

pub announced-Lives :
    {d : Option ℕ} (os : Os) (r : ℕ) (c : RegistryCallback)
    → Lives
        (λ w o. Matches (HasDisplay d) w o × (w.wayland_registry ≡ some r))
        (registry_callback os r c)
        (λ _. Matches (HasDisplay d))
announced-Lives {d} os r c =
    Lives-pre (λ w o h. (h.0.0, (h.0.1, h.1)))
      (Lives-post
        (registry_callback-Lives os r (λ w. HasDisplay d w × (w.wayland_registry ≡ some r))
          (λ w h. h.1) (λ w p h. h) (λ w p h. h) (λ w v h. h) c)
        (λ _ w o h. (h.0, h.1.0)))
