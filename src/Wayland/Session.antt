-- ===== src/Wayland/Session.antt =====
-- `try_monitor_wayland_idle_notify` around any loop.
use runwhenidle.Prelude.{ℕ, ◌≡◌, subst, Bool, true, false, Option, List}
use runwhenidle.Prelude.Int.{ℤ, negsuc}
use runwhenidle.System.{
  Os, Globals, Claim, Prog, Triple-pure, Triple-bind, Runs, Runs-Triple, Runs-pre, Runs-bind,
  Runs-bind_gets, Runs-branch, Runs-fact,
}
use runwhenidle.Environment.Files.{Files}
use runwhenidle.Environment.Session.{User}
use runwhenidle.Wayland.{is_null, try_monitor_wayland_idle_notify}
use runwhenidle.Wayland.Opening.{SetUp, try_initialize-Triple}
use runwhenidle.Wayland.Connection.{IsClosed, IsApart, With, release_session-Triple}

module _ (E : ℕ → Type 0) (fails : E 1) (K P : Claim) (apart : IsApart P) (J : ℤ → Claim)
    (J-apart : (r : ℤ) → IsApart (J r))
    (unavailable : (g : Globals) (l : List (ℤ × ℕ)) → P g l → J (negsuc 0) g l) (os : Os)
    (files : Files) (user : User) (loop : Option ℕ → Prog ℤ)
    (loops : (d : Option ℕ)
      → is_null d ≡ false
      → Runs K E (SetUp E fails P apart true) (loop d) J) where
  set_up :
      (b : Bool) (g : Globals) (l : List (ℤ × ℕ))
      → SetUp E fails P apart b g l × (b ≡ true)
      → SetUp E fails P apart true g l
  set_up b g l h = subst (λ x. SetUp E fails P apart x g l) h.1 h.0

  not_set_up :
      (b : Bool) (g : Globals) (l : List (ℤ × ℕ))
      → SetUp E fails P apart b g l × (b ≡ false)
      → SetUp E fails P apart false g l
  not_set_up b g l h = subst (λ x. SetUp E fails P apart x g l) h.1 h.0

  -- The loop runs with a session, and whatever it returns, no pointer to an object is kept.
  pub try_monitor-Runs :
      Runs K E
        (With E fails P apart IsClosed)
        (try_monitor_wayland_idle_notify os files user loop)
        (λ r g l. J r g l × IsClosed g.wayland)
  unfolding try_monitor_wayland_idle_notify
  try_monitor-Runs =
      Runs-bind (Runs-Triple (try_initialize-Triple E fails P apart os files user)) λ b.
        Runs-branch (λ _. b)
          (Runs-pre (set_up b) (
            Runs-bind_gets (λ g. g.wayland.wayland_display)
              λ d.
                Runs-fact (λ g l h. subst (λ p. is_null p ≡ false) h.1 h.0.1.has_display)
                  λ there. Runs-bind (Runs-pre (λ g l h. h.0) (loops d there)) λ r. Runs-Triple (
                    Triple-bind (release_session-Triple E fails (J r) (J-apart r) os files user)
                      λ _. Triple-pure r (λ g l h. h))))
          (Runs-pre (not_set_up b)
            (Runs-Triple (Triple-pure (negsuc 0) (λ g l h. (unavailable g l h.0, h.1)))))
