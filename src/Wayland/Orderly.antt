-- ===== src/Wayland/Orderly.antt =====
-- The set-up, the requests and the release of a session make only calls that the library allows.
use runwhenidle.Prelude.{
  ℕ, ◌≡◌, refl, sym, ap, subst, ◌∙◌, Bool, true, false, not, ◌&&◌, Option, none, some, List, [],
  ◌∷◌, arith,
}
use mathlib.Core.Bool.{false≢true}
use runwhenidle.System.{
  Os, Kind, notifier, notification, destroyed, Global, RegistryCallback, global, global_remove,
  Wayland, Mute-emit,
}
use runwhenidle.Arguments.Options.{strcmp_equal}
use runwhenidle.Wayland.{
  wl_seat, ext_idle_notifier_v1, is_null, bind, wayland_registry_global, registry_callback,
  registry_callbacks, release, release_object, request_notification, listen_if_created,
  start_wayland_idle_notification_object,
}
use runwhenidle.Wayland.Objects.{Objects, get, put, IsLast, pointers}
use runwhenidle.Wayland.Lives.{
  Relation, Lives, Lives-pure, Lives-pre, Lives-Mute, Lives-bind, Lives-bind_gets, Lives-reads,
  Lives-branch, Lives-when, Lives-call, Lives-create, Lives-set, Lives-pass,
}

-- The variables point to what is alive, and `P` holds of them.
abbrev pub Matches : (Wayland → Type 0) → Relation
Matches P w o = (o ≡ pointers w) × P w

pub put-none : (kind : Kind) (x : Objects) → get kind x ≡ none → put kind none x ≡ x
put-none Kind.display x e = sym (ap (λ p. record x { a_display = p }) e)
put-none Kind.registry x e = sym (ap (λ p. record x { a_registry = p }) e)
put-none Kind.seat x e = sym (ap (λ p. record x { a_seat = p }) e)
put-none Kind.notifier x e = sym (ap (λ p. record x { a_notifier = p }) e)
put-none Kind.notification x e = sym (ap (λ p. record x { a_notification = p }) e)

null_none : (p : Option ℕ) → is_null p ≡ true → p ≡ none
null_none none e = refl
null_none (some a) e = absurd (false≢true e)

not_null : (p : Option ℕ) → not (is_null p) ≡ false → p ≡ none
not_null none e = refl
not_null (some a) e = absurd (false≢true (sym e))

and_right : (x y : Bool) → x && y ≡ true → y ≡ true
and_right x y e = ground arith

-- The announcements of the registry that the variable points to.
module _ (os : Os) (registry : ℕ) (P : Wayland → Type 0)
    (at_registry : (w : Wayland) → P w → w.wayland_registry ≡ some registry)
    (seat_stable : (w : Wayland) (p : Option ℕ) → P w → P (record w { wayland_seat = p }))
    (notifier_stable : (w : Wayland) (p : Option ℕ)
      → P w
      → P (record w { wayland_idle_notifier = p }))
    (version_stable : (w : Wayland) (v : ℕ)
      → P w
      → P (record w { wayland_idle_notifier_version = v })) where
  bind-Lives :
      (kind : Kind) (name version : ℕ)
      → Lives
          (λ w o. Matches P w o × (get kind (pointers w) ≡ none))
          (bind os registry kind name version)
          (λ p w o. (o ≡ put kind p (pointers w)) × P w)
  bind-Lives kind name version =
      Lives-bind
        (Lives-pass Kind.registry (some registry)
          (λ w o h. ap (get Kind.registry) h.0.0 ∙ at_registry w h.0.1))
        λ _. Lives-bind (Lives-Mute (Mute-emit _ (λ tr. refl))) λ _.
          Lives-create kind _ (λ w o h. ap (get kind) h.0.0 ∙ h.1)
            (λ w o h. (h.0.0 ∙ sym (put-none kind (pointers w) h.1), h.0.1))
            (λ w o a h. (ap (put kind (some a)) h.0.0, h.0.1))

  registry_global-Lives :
      (a : Global) → Lives (Matches P) (wayland_registry_global os registry a) (λ _. Matches P)
  unfolding wayland_registry_global
  registry_global-Lives a =
      Lives-branch (λ w. strcmp_equal a.interface wl_seat && is_null w.wayland_seat)
        (Lives-pre {I' = λ w o. Matches P w o × (get Kind.seat (pointers w) ≡ none)}
          (λ w o h. (h.0, null_none _ (and_right _ _ h.1)))
          (Lives-bind (bind-Lives Kind.seat a.name 1)
            λ p. Lives-set _ (λ w o h. (h.0, seat_stable w p h.1))))
        (Lives-pre (λ w o h. h.0)
          (Lives-when
            (λ w. strcmp_equal a.interface ext_idle_notifier_v1 && is_null w.wayland_idle_notifier)
            (Lives-pre {I' = λ w o. Matches P w o × (get notifier (pointers w) ≡ none)}
              (λ w o h. (h.0, null_none _ (and_right _ _ h.1)))
              (Lives-bind
                (Lives-set {J = λ _ w o. Matches P w o × (get notifier (pointers w) ≡ none)} _
                  (λ w o h. ((h.0.0, version_stable w _ h.0.1), h.1)))
                λ _.
                  Lives-bind (bind-Lives notifier a.name _)
                    λ p. Lives-set _ (λ w o h. (h.0, notifier_stable w p h.1))))
            (λ w o h. h)))

  pub registry_callback-Lives :
      (c : RegistryCallback) → Lives (Matches P) (registry_callback os registry c) (λ _. Matches P)
  unfolding registry_callback
  registry_callback-Lives (global a) = registry_global-Lives a
  registry_callback-Lives (global_remove name) = Lives-pure tt (λ w o h. h)

  pub registry_callbacks-Lives :
      (cs : List RegistryCallback)
      → Lives (Matches P) (registry_callbacks os registry cs) (λ _. Matches P)
  unfolding registry_callbacks
  registry_callbacks-Lives [] = Lives-pure tt (λ w o h. h)
  registry_callbacks-Lives (c ∷ rest) =
      Lives-bind (registry_callback-Lives c) (λ _. registry_callbacks-Lives rest)

-- Destroying the object that a variable points to, and clearing the variable.
module _ {P P' : Wayland → Type 0} (kind : Kind) (pointer : Wayland → Option ℕ)
    (clear : Wayland → Wayland) (is_pointer : (w : Wayland) → get kind (pointers w) ≡ pointer w)
    (clears : (w : Wayland) → put kind none (pointers w) ≡ pointers (clear w))
    (last : (w : Wayland) → P w → IsLast kind (pointers w))
    (cleared : (w : Wayland) → P w → P' (clear w))
    (absent : (w : Wayland) → P w → pointer w ≡ none → P' w) where
  object-Lives :
      (p : Option ℕ)
      → Lives
          (λ w o. Matches P w o × (pointer w ≡ p))
          (release_object kind clear p)
          (λ _. Matches P')
  unfolding release_object
  object-Lives none = Lives-pure tt (λ w o h. (h.0.0, absent w h.0.1 h.1))
  object-Lives (some a) =
      Lives-bind
        (Lives-call {J = λ _ w o. (o ≡ put kind none (pointers w)) × P w} (destroyed kind a)
          (λ w o h. (
            (
              ap (get kind) h.0.0 ∙ is_pointer w ∙ h.1,
              subst (IsLast kind) (sym h.0.0) (last w h.0.1),
            ),
            (ap (put kind none) h.0.0, h.0.1),
          )))
        λ _. Lives-set clear (λ w o h. (h.0 ∙ clears w, cleared w h.1))

  pub release-Lives : Lives (Matches P) (release kind pointer clear) (λ _. Matches P')
  unfolding release
  release-Lives = Lives-bind_gets pointer λ p. object-Lives p

-- The display stays what it is.
abbrev pub HasDisplay : Option ℕ → Wayland → Type 0
HasDisplay d w = w.wayland_display ≡ d

-- Asking for an idle notification.
module _ (os : Os) (d : Option ℕ) where
  request-Lives :
      Lives
        (λ w o. Matches (HasDisplay d) w o × (w.wayland_idle_notification ≡ none))
        (request_notification os)
        (λ p w o. (o ≡ put notification p (pointers w)) × HasDisplay d w)
  unfolding request_notification
  request-Lives = Lives-reads λ g.
      Lives-bind
        (Lives-pass notifier g.wayland.wayland_idle_notifier
          (λ w o h. ap (get notifier) h.0.0.0 ∙ ap (λ x. x.wayland_idle_notifier) h.1))
        λ _.
          Lives-bind
            (Lives-pass Kind.seat g.wayland.wayland_seat
              (λ w o h. ap (get Kind.seat) h.0.0.0 ∙ ap (λ x. x.wayland_seat) h.1))
            λ _. Lives-bind (Lives-Mute (Mute-emit _ (λ tr. refl))) λ _.
              Lives-create notification _ (λ w o h. ap (get notification) h.0.0.0 ∙ h.0.1)
                (λ w o h. (h.0.0.0 ∙ sym (put-none notification (pointers w) h.0.1), h.0.0.1))
                (λ w o a h. (ap (put notification (some a)) h.0.0.0, h.0.0.1))

  listen-Lives :
      (p : Option ℕ)
      → Lives
          (λ w o. Matches (HasDisplay d) w o × (w.wayland_idle_notification ≡ p))
          (listen_if_created os p)
          (λ _. Matches (HasDisplay d))
  unfolding listen_if_created
  listen-Lives none = Lives-pure _ (λ w o h. h.0)
  listen-Lives (some a) =
      Lives-bind (Lives-pass notification (some a) (λ w o h. ap (get notification) h.0.0 ∙ h.1))
        λ _.
          Lives-bind_gets (λ w. w.wayland_display)
            λ p.
              Lives-bind (Lives-pass Kind.display p (λ w o h. ap (get Kind.display) h.0.0.0 ∙ h.1))
                λ _. Lives-pure _ (λ w o h. h.0.0)

  pub start_notification-Lives :
      Lives
        (Matches (HasDisplay d))
        (start_wayland_idle_notification_object os)
        (λ _. Matches (HasDisplay d))
  unfolding start_wayland_idle_notification_object
  start_notification-Lives =
      Lives-branch (λ w. not (is_null w.wayland_idle_notification)) (Lives-pure _ (λ w o h. h.0))
        (Lives-branch (λ w. not w.wayland_idle_notify_available) (Lives-pure _ (λ w o h. h.0.0))
          (Lives-pre (λ w o h. (h.0.0, not_null _ h.0.1))
            (Lives-bind request-Lives
              λ p. Lives-bind (Lives-set _ (λ w o h. (h, refl))) λ _. listen-Lives p)))
