-- ===== src/Wayland/SetUp.antt =====
-- A whole session, from the connection to its release, makes only calls that the library allows.
use runwhenidle.Prelude.{ℕ, ◌≡◌, refl, sym, ap, subst, ◌∙◌, Bool, true, false, Option, none, some}
use runwhenidle.System.{Os, Kind, notifier, destroyed, Wayland}
use runwhenidle.Environment.Files.{Files}
use runwhenidle.Environment.Session.{User}
use runwhenidle.Wayland.{
  clear_notifier, clear_seat, clear_registry, clear_display, abandon_session, initialize_registry,
  initialize_display,
}
use runwhenidle.Wayland.Objects.{Objects, nothing, get, put, IsLast, pointers}
use runwhenidle.Wayland.Lives.{
  Relation, Lives, Lives-pure, Lives-pre, Lives-bind, Lives-either, Lives-call, Lives-create,
  Lives-set, Lives-pass, Lives-display,
}
use runwhenidle.Wayland.Orderly.{Matches, registry_callbacks-Lives, release-Lives}

-- What is alive, and what the variables say, where they differ for a moment.
abbrev pub Is : Objects → Objects → Relation
Is x y w o = (o ≡ x) × (pointers w ≡ y)

-- After the release of the notification.
abbrev pub WithoutNotification : Wayland → Type 0
WithoutNotification w = w.wayland_idle_notification ≡ none

abbrev Opening : ℕ → ℕ → Wayland → Type 0
Opening d r w =
    (w.wayland_display ≡ some d)
    × (w.wayland_registry ≡ some r)
    × (w.wayland_idle_notification ≡ none)

module _ (os : Os) (files : Files) (user : User) where
  abandon-Lives :
      (d r : ℕ)
      → Lives
          (Matches (Opening d r))
          (abandon_session os files user d r)
          (λ _. Matches (λ w. pointers w ≡ nothing))
  unfolding abandon_session
  abandon-Lives d r =
      Lives-bind
        (release-Lives {P' = λ w. Opening d r w × (w.wayland_idle_notifier ≡ none)} notifier _
          clear_notifier (λ w. refl) (λ w. refl) (λ w h. tt) (λ w h. (h, refl)) (λ w h e. (h, e)))
        λ _.
          Lives-bind
            (release-Lives
              {P' = λ w.
                (Opening d r w × (w.wayland_idle_notifier ≡ none)) × (w.wayland_seat ≡ none)}
              Kind.seat _ clear_seat (λ w. refl) (λ w. refl) (λ w h. tt) (λ w h. (h, refl))
              (λ w h e. (h, e)))
            λ _.
              Lives-bind
                (Lives-call
                  {J = λ _ w o. (o ≡ put Kind.display (some d) nothing) × WithoutNotification w}
                  (destroyed Kind.registry r)
                  (λ w o h. (
                    (ap (get Kind.registry) h.0 ∙ h.1.0.0.1, tt),
                    (
                      ap (put Kind.registry none) h.0 ∙ (λ i. record {
                        a_display = h.1.0.0.0 i;
                        a_registry = none;
                        a_seat = h.1.1 i;
                        a_notifier = h.1.0.1 i;
                        a_notification = h.1.0.0.2 i;
                      }),
                      h.1.0.0.2,
                    ),
                  )))
                λ _.
                  Lives-bind
                    (Lives-set
                      {J = λ _ w o.
                        (o ≡ put Kind.display (some d) nothing)
                        × WithoutNotification w
                        × (w.wayland_registry ≡ none)}
                      clear_registry (λ w o h. (h.0, h.1, refl)))
                    λ _.
                      Lives-bind
                        (Lives-call
                          {J = λ _ w o.
                            (o ≡ nothing) × WithoutNotification w × (w.wayland_registry ≡ none)}
                          (destroyed Kind.display d)
                          (λ w o h. (
                            (
                              ap (get Kind.display) h.0,
                              subst (IsLast Kind.display) (sym h.0) (refl, refl, refl, refl),
                            ),
                            (ap (put Kind.display none) h.0, h.1, h.2),
                          )))
                        λ _. Lives-set _ (λ w o h.
                          let cleared : pointers (record w {
                            wayland_display = none;
                            wayland_seat = none;
                            wayland_idle_notifier = none;
                            wayland_idle_notify_available = false;
                          })
                              ≡ nothing =
                            λ i. record {
                              a_display = none;
                              a_registry = h.2 i;
                              a_seat = none;
                              a_notifier = none;
                              a_notification = h.1 i;
                            } in
                          (h.0 ∙ sym cleared, cleared))

  -- The set-up: with a session whose display is `d`, or with nothing.
  abbrev pub Result : Bool → Relation
  Result true = Matches (λ w. Unit {0})
  Result false = Matches (λ w. pointers w ≡ nothing)

  initialize_registry-Lives :
      (d : ℕ) (p : Option ℕ)
      → Lives
          (Matches (λ w. pointers w ≡ put Kind.registry p (put Kind.display (some d) nothing)))
          (initialize_registry os files user d p)
          Result
  unfolding initialize_registry
  initialize_registry-Lives d none =
      Lives-bind
        (Lives-call {J = λ _ w o. (o ≡ nothing) × (pointers w ≡ put Kind.display (some d) nothing)}
          (destroyed Kind.display d)
          (λ w o h.
            let whole = h.0 ∙ h.1 in
            (
              (
                ap (get Kind.display) whole,
                subst (IsLast Kind.display) (sym whole) (refl, refl, refl, refl),
              ),
              (ap (put Kind.display none) whole, h.1),
            )))
        λ _.
          Lives-bind
            (Lives-set {J = λ _. Matches (λ w. pointers w ≡ nothing)} clear_display (λ w o h.
              let cleared : pointers (clear_display w) ≡ nothing = ap (put Kind.display none) h.1 in
              (h.0 ∙ sym cleared, cleared)))
            λ _. Lives-pure false (λ w o h. h)
  initialize_registry-Lives d (some r) =
      Lives-pre {I' = Matches (Opening d r)}
        (λ w o h. (
          h.0,
          (ap (get Kind.display) h.1, ap (get Kind.registry) h.1, ap (get Kind.notification) h.1),
        ))
        (Lives-bind
          (Lives-pass Kind.registry (some r) (λ w o h. ap (get Kind.registry) h.0 ∙ h.1.1))
          λ _.
            Lives-bind
              (Lives-display os.wayland.roundtrip (some d)
                (λ w o h. ap (get Kind.display) h.0 ∙ h.1.0))
              λ cs.
                Lives-bind
                  (registry_callbacks-Lives os r (Opening d r) (λ w h. h.1) (λ w p h. h)
                    (λ w p h. h) (λ w v h. h) cs)
                  λ _.
                    Lives-either _
                      (Lives-bind (Lives-set {J = λ _. Result true} _ (λ w o h. (h.0, tt)))
                        λ _. Lives-pure true (λ w o h. h))
                      (Lives-bind (abandon-Lives d r) λ _. Lives-pure false (λ w o h. h)))

  pub initialize_display-Lives :
      (p : Option ℕ)
      → Lives
          (Matches (λ w. pointers w ≡ put Kind.display p nothing))
          (initialize_display os files user p)
          Result
  unfolding initialize_display
  initialize_display-Lives none = Lives-pure false (λ w o h. h)
  initialize_display-Lives (some d) =
      Lives-bind (Lives-pass Kind.display (some d) (λ w o h. ap (get Kind.display) (h.0 ∙ h.1)))
        λ _.
          Lives-bind
            (Lives-create
              {J = λ q w o.
                (o ≡ put Kind.registry q (put Kind.display (some d) nothing))
                × (pointers w ≡ put Kind.display (some d) nothing)}
              Kind.registry os.wayland.get_registry (λ w o h. ap (get Kind.registry) (h.0 ∙ h.1))
              (λ w o h. (h.0 ∙ h.1, h.1))
              (λ w o a h. (ap (put Kind.registry (some a)) (h.0 ∙ h.1), h.1)))
            λ q.
              Lives-bind
                (Lives-set
                  {J = λ _.
                    Matches
                      (λ w. pointers w ≡ put Kind.registry q (put Kind.display (some d) nothing))}
                  _
                  (λ w o h.
                    let now : pointers (record w { wayland_registry = q })
                        ≡ put Kind.registry q (put Kind.display (some d) nothing) =
                      ap (put Kind.registry q) h.1 in
                    (h.0 ∙ sym now, now)))
                λ _. initialize_registry-Lives d q
