-- ===== src/Wayland/Notification.antt =====
-- Asking for an idle notification: no pointer that is NULL reaches the library.
use runwhenidle.Prelude.{
  ℕ, ◌≡◌, refl, sym, ap, subst, Bool, true, false, not, Option, none, some, List, ◌∷◌, arith,
}
use mathlib.Core.Bool.{false≢true}
use runwhenidle.Prelude.Int.{ℤ, pos, ltb_ℤ}
use runwhenidle.System.{
  Os, Kind, Wayland, Globals, Event, signals, Claim, Triple, Triple-Silent, Triple-pre, Triple-pure,
  Triple-modify, Triple-bind, Triple-bind_gets, Triple-branch, Triple-fact, Silent, Silent-emit,
  Silent-ask,
}
use runwhenidle.Wayland.{
  is_null, created_or_not, pass, call_display, set_wayland, request_notification, listen_if_created,
  start_wayland_idle_notification_object,
}

-- The session as it is where its set-up has succeeded.
pub record IsConnected (w : Wayland) : Type 0 where
  pub has_display : is_null w.wayland_display ≡ false
  pub has_registry : is_null w.wayland_registry ≡ false
  pub has_seat : is_null w.wayland_seat ≡ false
  pub has_notifier : is_null w.wayland_idle_notifier ≡ false
  pub available : w.wayland_idle_notify_available ≡ true

flipped : (b : Bool) → not b ≡ true → b ≡ false
flipped b e = ground arith

pub created_or_not-signals :
    (kind : Kind) (p : Option ℕ) (tr : List Event)
    → signals (created_or_not kind p ∷ tr) ≡ signals tr
created_or_not-signals kind none tr = refl
created_or_not-signals kind (some address) tr = refl

pub pass-Silent : (kind : Kind) (p : Option ℕ) → is_null p ≡ false → Silent (pass kind p)
unfolding pass
pass-Silent kind none e = absurd (false≢true (sym e))
pass-Silent kind (some address) e = Silent-emit _ (λ tr. refl)

pub call_display-Silent :
    {A : Type 0} (answer : List Event → A) (p : Option ℕ)
    → is_null p ≡ false
    → Silent (call_display answer p)
unfolding call_display
call_display-Silent answer none e = absurd (false≢true (sym e))
call_display-Silent answer (some address) e = Silent-ask _ _ (λ a tr. refl)

-- A claim that does not depend on the notification.
abbrev pub IsNotificationStable : Claim → Type 0
IsNotificationStable I =
    (g : Globals) (l : List (ℤ × ℕ)) (n : Option ℕ)
    → I g l
    → I (record g { wayland = record g.wayland { wayland_idle_notification = n } }) l

module _ (os : Os) (E : ℕ → Type 0) (fails : E 1) (I : Claim) (stable : IsNotificationStable I)
    (connected : (g : Globals) (l : List (ℤ × ℕ)) → I g l → IsConnected g.wayland) where
  request-Triple : Triple E I (request_notification os) (λ _. I)
  unfolding request_notification
  request-Triple =
      Triple-bind_gets (λ g. g)
        λ g₀.
          Triple-fact (λ g l h. subst (λ x. IsConnected x.wayland) h.1 (connected g l h.0))
            λ c.
              Triple-pre (λ g l h. h.0)
                (Triple-bind (Triple-Silent fails (pass-Silent _ _ c.has_notifier)) λ _.
                  Triple-bind (Triple-Silent fails (pass-Silent _ _ c.has_seat)) λ _.
                    Triple-bind (Triple-Silent fails (Silent-emit _ (λ tr. refl)))
                      λ _. Triple-Silent fails (Silent-ask _ _ (created_or_not-signals _)))

  listen-Triple :
      (p : Option ℕ)
      → Triple E
          (λ g l. I g l × (g.wayland.wayland_idle_notification ≡ p))
          (listen_if_created os p)
          (λ r g l.
            I g l × (ltb_ℤ r (pos 0) ≡ false → is_null g.wayland.wayland_idle_notification ≡ false))
  unfolding listen_if_created
  listen-Triple none = Triple-pure _ (λ g l h. (h.0, λ e. absurd (false≢true (sym e))))
  listen-Triple (some address) =
      Triple-bind (Triple-Silent fails (pass-Silent _ (some address) refl)) λ _.
        Triple-bind_gets (λ g. g.wayland.wayland_display)
          λ display.
            Triple-fact
              (λ g l h. subst (λ p. is_null p ≡ false) h.1 (connected g l h.0.0).has_display)
              λ there.
                Triple-bind (Triple-Silent fails (pass-Silent _ _ there))
                  λ _. Triple-pure _ (λ g l h. (h.0.0, λ _. ap is_null h.0.1))

  -- What it returns is negative only where there is no notification.
  pub start_notification-Triple : Triple E I (start_wayland_idle_notification_object os) (λ r g l.
      I g l × (ltb_ℤ r (pos 0) ≡ false → is_null g.wayland.wayland_idle_notification ≡ false))
  unfolding start_wayland_idle_notification_object set_wayland
  start_notification-Triple =
      Triple-branch (λ g. not (is_null g.wayland.wayland_idle_notification))
        (Triple-pure _ (λ g l h. (h.0, λ _. flipped _ h.1)))
        (Triple-branch (λ g. not g.wayland.wayland_idle_notify_available)
          (Triple-pure _ (λ g l h. (h.0.0, λ e. absurd (false≢true (sym e)))))
          (Triple-pre (λ g l h. h.0.0)
            (Triple-bind request-Triple λ p.
              Triple-bind (Triple-modify _ (λ g l h. (stable g l p h, refl)))
                λ _. listen-Triple p)))
