-- ===== src/Wayland/Availability.antt =====
-- When a session is available.
use runwhenidle.Prelude.{
  ℕ, ◌≡◌, refl, sym, ap, ◌∙◌, Bool, true, false, not, ◌&&◌, ◌||◌, Option, none, some, List,
  if◌then◌else◌, arith,
}
use mathlib.Core.Bool.{false≢true}
use runwhenidle.System.{
  Os, Event, Kind, RegistryCallback, State, Wayland, Claim, Wp, Triple, Triple-pre, Triple-pure,
  Triple-modify, Triple-bind, Triple-bind_gets, Triple-bind_modify, Triple-branch, Triple-ask,
  Triple-emit, Triple-fact,
}
use runwhenidle.Environment.Files.{Files}
use runwhenidle.Environment.Session.{User}
use runwhenidle.Wayland.{
  wl_seat, ext_idle_notifier_v1, is_null, pass, call_display, set_wayland, release_object, release,
  is_bound, abandon_session, initialize_registry, initialize_display,
}
use runwhenidle.Wayland.Notification.{created_or_not-signals}
use runwhenidle.Wayland.Registry.{Binds, announces, Bound, callbacks-Triple}

-- The program does not end in between.
abbrev GoesOn : ℕ → Type 0
GoesOn c = ⊥

abbrev Anything : Claim
Anything g l = Unit

-- Whether both that the program needs are announced.
abbrev pub has_both : List RegistryCallback → Bool
has_both cs = announces wl_seat cs && announces ext_idle_notifier_v1 cs

agree :
    (s n a b x : Bool)
    → s ≡ (if a then false else true)
    → n ≡ (if b then false else true)
    → not (s || n) ≡ x
    → x ≡ a && b
agree s n a b x e f g = ground arith

release-Anything :
    (kind : Kind) (pointer : Wayland → Option ℕ) (clear : Wayland → Wayland)
    → Triple GoesOn Anything (release kind pointer clear) (λ _. Anything)
unfolding release release_object set_wayland
release-Anything kind pointer clear = Triple-bind_gets _ λ p. Triple-pre (λ g l h. tt) (object p)
  where
    object : (p : Option ℕ) → Triple GoesOn Anything (release_object kind clear p) (λ _. Anything)
    object none = Triple-pure tt (λ g l h. tt)
    object (some a) = Triple-bind (Triple-emit _ (λ tr. refl)) λ _. Triple-modify _ (λ g l h. tt)

module _ (os : Os) (files : Files) (user : User) (cs : List RegistryCallback) (binds : Binds os)
    (announced : (h : List Event) → os.wayland.roundtrip h ≡ cs) where
  abbrev Says : Bool → Claim
  Says ok g l = ok ≡ has_both cs

  abandon-Anything :
      (d r : ℕ) → Triple GoesOn Anything (abandon_session os files user d r) (λ _. Anything)
  unfolding abandon_session set_wayland
  abandon-Anything d r = Triple-bind (release-Anything _ _ _) λ _.
      Triple-bind (release-Anything _ _ _) λ _. Triple-bind (Triple-emit _ (λ tr. refl)) λ _.
        Triple-bind (Triple-modify {J = λ _. Anything} _ (λ g l h. tt))
          λ _. Triple-bind (Triple-emit _ (λ tr. refl)) λ _. Triple-modify _ (λ g l h. tt)

  initialize_registry-Says :
      (d v : ℕ) (p : Option ℕ)
      → is_null p ≡ false
      → Triple GoesOn (Bound true true v) (initialize_registry os files user d p) Says
  unfolding initialize_registry pass call_display set_wayland is_bound
  initialize_registry-Says d v none there = absurd (false≢true (sym there))
  initialize_registry-Says d v (some r) there = Triple-bind (Triple-emit _ (λ tr. refl)) λ _.
      Triple-bind (Triple-ask os.wayland.roundtrip _ (λ a tr. refl)) λ callbacks.
        Triple-fact (λ g l h. h.1.1 ∙ announced h.1.0)
          λ same.
            Triple-pre (λ g l h. h.0)
              (Triple-bind (callbacks-Triple os r binds callbacks true true v) λ _.
                Triple-branch
                  (λ g.
                    not (is_null g.wayland.wayland_seat || is_null g.wayland.wayland_idle_notifier))
                  (Triple-fact (λ g l h. agree _ _ _ _ true h.0.0 h.0.1 h.1 ∙ ap has_both same)
                    λ yes.
                      Triple-bind {J = λ _. Anything} (Triple-modify _ (λ g l h. tt))
                        λ _. Triple-pure true (λ g l h. yes))
                  (Triple-fact (λ g l h. agree _ _ _ _ false h.0.0 h.0.1 h.1 ∙ ap has_both same)
                    λ no_.
                      Triple-bind (Triple-pre (λ g l h. tt) (abandon-Anything d r))
                        λ _. Triple-pure false (λ g l h. no_)))

-- Where binding and the creation of a registry succeed, and the compositor answers the round trip with
-- these announcements: with a display, and with no seat and no notifier before, there is a session
-- exactly if both a seat and a notifier are announced, in whatever order and between whatever
-- else. The program goes on.
pub session_iff_announced :
    (os : Os) (files : Files) (user : User) (cs : List RegistryCallback) (display : ℕ) (s : State)
    → Binds os
    → ((h : List Event) → is_null (os.wayland.get_registry h) ≡ false)
    → ((h : List Event) → os.wayland.roundtrip h ≡ cs)
    → is_null s.wayland.wayland_seat ≡ true
    → is_null s.wayland.wayland_idle_notifier ≡ true
    → Wp
        (initialize_display os files user (some display))
        (λ available t. available ≡ has_both cs)
        (λ c t. ⊥)
        s
unfolding initialize_display pass set_wayland
session_iff_announced os files user cs display s binds registers announced no_seat no_notifier =
    (begin s.wayland.wayland_idle_notifier_version).run s (no_seat, no_notifier, refl)
  where
    begin :
        (v : ℕ)
        → Triple GoesOn
            (Bound true true v)
            (initialize_display os files user (some display))
            (λ available g l. available ≡ has_both cs)
    begin v = Triple-bind (Triple-emit _ (λ tr. refl)) λ _.
        Triple-bind (Triple-ask os.wayland.get_registry _ (created_or_not-signals Kind.registry))
          λ p.
            Triple-fact (λ g l h. ap is_null h.1.1 ∙ registers h.1.0)
              λ there.
                Triple-bind_modify (Bound true true v) _ _ (λ g l h. h.0)
                  (initialize_registry-Says os files user cs binds announced display v p there)
