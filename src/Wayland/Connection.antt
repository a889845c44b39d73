-- ===== src/Wayland/Connection.antt =====
-- Setting a session up and taking it down: which pointers are NULL afterwards.
use runwhenidle.Prelude.{ℕ, ◌≡◌, refl, ◌∙◌, Option, none, some, List}
use runwhenidle.Prelude.Int.{ℤ}
use runwhenidle.System.{
  Os, Kind, Wayland, Globals, Environment, Claim, Triple, Triple-Silent, Triple-pre, Triple-pure,
  Triple-modify, Triple-bind, Triple-bind_gets, Silent-emit,
}
use runwhenidle.Environment.Files.{Files}
use runwhenidle.Environment.Session.{User}
use runwhenidle.Wayland.{set_wayland, release_object, release, release_session}

-- No pointer to an object is kept.
pub record IsClosed (w : Wayland) : Type 0 where
  pub no_display : w.wayland_display ≡ none
  pub no_registry : w.wayland_registry ≡ none
  pub no_seat : w.wayland_seat ≡ none
  pub no_notifier : w.wayland_idle_notifier ≡ none
  pub no_notification : w.wayland_idle_notification ≡ none

-- A claim that does not depend on the environment and the session.
abbrev pub IsApart : Claim → Type 0
IsApart P =
    (g : Globals) (l : List (ℤ × ℕ)) (w : Wayland) (e : Environment)
    → P g l
    → P (record g { wayland = w; environment = e }) l

module _ (E : ℕ → Type 0) (fails : E 1) (P : Claim) (apart : IsApart P) where
  abbrev pub With : (Wayland → Type 0) → Claim
  With W g l = P g l × W g.wayland

  pub set-Triple :
      (W W' : Wayland → Type 0) (f : Wayland → Wayland)
      → ((w : Wayland) → W w → W' (f w))
      → Triple E (With W) (set_wayland f) (λ _. With W')
  unfolding set_wayland
  set-Triple W W' f k =
      Triple-modify _ (λ g l h. (apart g l (f g.wayland) g.environment h.0, k _ h.1))

  release_object-Triple :
      (W W' : Wayland → Type 0) (kind : Kind) (clear : Wayland → Wayland) (p : Option ℕ)
      → ((w : Wayland) → W w → W' (clear w))
      → ((w : Wayland) → W w → p ≡ none → W' w)
      → Triple E (With W) (release_object kind clear p) (λ _. With W')
  unfolding release_object
  release_object-Triple W W' kind clear none cleared absent =
      Triple-pure _ (λ g l h. (h.0, absent _ h.1 refl))
  release_object-Triple W W' kind clear (some a) cleared absent =
      Triple-bind (Triple-Silent fails (Silent-emit _ (λ tr. refl)))
        λ _. set-Triple W W' clear cleared

  pub release-Triple :
      (W W' : Wayland → Type 0) (kind : Kind) (pointer : Wayland → Option ℕ)
      (clear : Wayland → Wayland)
      → ((w : Wayland) → W w → W' (clear w))
      → ((w : Wayland) → W w → pointer w ≡ none → W' w)
      → Triple E (With W) (release kind pointer clear) (λ _. With W')
  unfolding release
  release-Triple W W' kind pointer clear cleared absent =
      Triple-bind_gets (λ g. pointer g.wayland)
        λ p.
          Triple-pre (λ g l h. (h.0.0, (h.0.1, h.1)))
            (release_object-Triple (λ w. W w × (pointer w ≡ p)) W' kind clear p
              (λ w k. cleared w k.0) (λ w k e. absent w k.0 (k.1 ∙ e)))

  -- After `release_session` no pointer is left, whatever there was.
  pub release_session-Triple :
      (os : Os) (files : Files) (user : User)
      → Triple E P (release_session os files user) (λ _. With IsClosed)
  unfolding release_session
  release_session-Triple os files user =
      Triple-bind
        (Triple-pre (λ g l h. (h, tt))
          (release-Triple (λ _. Unit {0}) (λ w. w.wayland_idle_notification ≡ none) _ _ _
            (λ w _. refl) (λ w _ e. e)))
        λ _.
          Triple-bind
            (release-Triple _
              (λ w. (w.wayland_idle_notification ≡ none) × (w.wayland_idle_notifier ≡ none)) _ _ _
              (λ w h. (h, refl)) (λ w h e. (h, e)))
            λ _.
              Triple-bind
                (release-Triple _
                  (λ w.
                    (w.wayland_idle_notification ≡ none)
                    × (w.wayland_idle_notifier ≡ none)
                    × (w.wayland_seat ≡ none))
                  _ _ _ (λ w h. (h.0, h.1, refl)) (λ w h e. (h.0, h.1, e)))
                λ _.
                  Triple-bind
                    (release-Triple _
                      (λ w.
                        (w.wayland_idle_notification ≡ none)
                        × (w.wayland_idle_notifier ≡ none)
                        × (w.wayland_seat ≡ none)
                        × (w.wayland_registry ≡ none))
                      _ _ _ (λ w h. (h.0, h.1, h.2, refl)) (λ w h e. (h.0, h.1, h.2, e)))
                    λ _.
                      release-Triple _ IsClosed _ _ _
                        (λ w h. record {
                          no_display = refl;
                          no_registry = h.3;
                          no_seat = h.2;
                          no_notifier = h.1;
                          no_notification = h.0;
                        })
                        (λ w h e. record {
                          no_display = e;
                          no_registry = h.3;
                          no_seat = h.2;
                          no_notifier = h.1;
                          no_notification = h.0;
                        })
