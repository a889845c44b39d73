-- ===== src/Wayland/Opening.antt =====
-- Setting a session up.
use runwhenidle.Prelude.{
  ℕ, ◌≡◌, refl, ap, Bool, true, false, not, ◌&&◌, ◌||◌, Option, none, some, List, [], ◌∷◌, arith,
}
use runwhenidle.System.{
  Os, Kind, Wayland, Claim, Global, RegistryCallback, global, global_remove, Triple, Triple-Silent,
  Triple-pre, Triple-pure, Triple-bind, Triple-bind_gets, Triple-bind_modify, Triple-branch,
  Triple-when, Silent, Silent-emit, Silent-ask, Silent-bind, pure, ◌>>◌,
}
use runwhenidle.Arguments.Options.{strcmp_equal}
use runwhenidle.Environment.Files.{Files}
use runwhenidle.Environment.Session.{User}
use runwhenidle.Wayland.{
  wl_seat, ext_idle_notifier_v1, is_null, set_wayland, wayland_registry_global, registry_callback,
  registry_callbacks, bind, display_connect, name_if_connected, connect_to_socket, connect_in,
  connect_unless, connect_to_wayland_best_effort, is_bound, abandon_session, initialize_registry,
  initialize_display, try_initialize_wayland_idle_backend,
}
use runwhenidle.Wayland.Notification.{
  IsConnected, pass-Silent, call_display-Silent, created_or_not-signals,
}
use runwhenidle.Wayland.Connection.{IsClosed, IsApart, With, set-Triple, release-Triple}

-- While the registry's announcements come in.
abbrev IsOpening : ℕ → ℕ → Wayland → Type 0
IsOpening d r w =
    (w.wayland_display ≡ some d)
    × (w.wayland_registry ≡ some r)
    × (w.wayland_idle_notification ≡ none)

-- Before them.
abbrev InSetUp : Option ℕ → Option ℕ → Wayland → Type 0
InSetUp display registry w =
    (w.wayland_display ≡ display)
    × (w.wayland_registry ≡ registry)
    × (w.wayland_seat ≡ none)
    × (w.wayland_idle_notifier ≡ none)
    × (w.wayland_idle_notification ≡ none)

flipped : (b : Bool) → not b ≡ true → b ≡ false
flipped b e = ground arith

not_or : (a b : Bool) → a || b ≡ false → (a ≡ false) × (b ≡ false)
not_or a b e = (ground arith, ground arith)

module _ (E : ℕ → Type 0) (fails : E 1) (P : Claim) (apart : IsApart P) where
  module _ (os : Os) (registry : ℕ) where
    bind-Silent : (kind : Kind) (name version : ℕ) → Silent (bind os registry kind name version)
    bind-Silent kind name version = Silent-bind _ _ (pass-Silent _ (some registry) refl) (λ _.
        Silent-bind _ _ (Silent-emit _ (λ tr. refl))
          (λ _. Silent-ask _ _ (created_or_not-signals kind)))

    registry_global-Triple :
        (d r : ℕ) (a : Global)
        → Triple E
            (With E fails P apart (IsOpening d r))
            (wayland_registry_global os registry a)
            (λ _. With E fails P apart (IsOpening d r))
    unfolding wayland_registry_global
    registry_global-Triple d r a =
        Triple-branch (λ g. strcmp_equal a.interface wl_seat && is_null g.wayland.wayland_seat)
          (Triple-pre (λ g l h. h.0)
            (Triple-bind (Triple-Silent fails (bind-Silent _ _ _))
              λ seat. set-Triple E fails P apart _ (IsOpening d r) _ (λ w h. (h.0, h.1, h.2))))
          (Triple-pre (λ g l h. h.0)
            (Triple-when
              (λ g.
                strcmp_equal a.interface ext_idle_notifier_v1
                && is_null g.wayland.wayland_idle_notifier)
              (Triple-pre (λ g l h. h.0)
                (Triple-bind
                  (set-Triple E fails P apart _ (IsOpening d r) _ (λ w h. (h.0, h.1, h.2)))
                  λ _. Triple-bind (Triple-Silent fails (bind-Silent _ _ _)) λ object.
                    set-Triple E fails P apart _ (IsOpening d r) _ (λ w h. (h.0, h.1, h.2))))
              (λ g l h _. h)))

    registry_callbacks-Triple :
        (d r : ℕ) (cs : List RegistryCallback)
        → Triple E
            (With E fails P apart (IsOpening d r))
            (registry_callbacks os registry cs)
            (λ _. With E fails P apart (IsOpening d r))
    unfolding registry_callbacks registry_callback
    registry_callbacks-Triple d r [] = Triple-pure _ (λ g l h. h)
    registry_callbacks-Triple d r (global a ∷ rest) =
        Triple-bind (registry_global-Triple d r a) (λ _. registry_callbacks-Triple d r rest)
    registry_callbacks-Triple d r (global_remove name ∷ rest) =
        Triple-bind (Triple-pure _ (λ g l h. h)) (λ _. registry_callbacks-Triple d r rest)

  -- The result of the set-up, and what it has left.
  abbrev pub SetUp : Bool → Claim
  SetUp true g l = P g l × IsConnected g.wayland × (g.wayland.wayland_idle_notification ≡ none)
  SetUp false g l = P g l × IsClosed g.wayland

  module _ (os : Os) (files : Files) (user : User) where
    name_if-Triple :
        (W : Wayland → Type 0) (runtime_dir name : List ℕ) (p : Option ℕ)
        → Triple E
            (With E fails P apart W)
            (name_if_connected os files user runtime_dir name p)
            (λ _. With E fails P apart W)
    unfolding name_if_connected
    name_if-Triple W dir name none = Triple-pure _ (λ g l h. h)
    name_if-Triple W dir name (some a) =
        Triple-bind_modify (With E fails P apart W) _ _ (λ g l h. (apart g l g.wayland _ h.0, h.1))
          (Triple-pure _ (λ g l h. h))

    connect_to_socket-Triple :
        (W : Wayland → Type 0) (dir : List ℕ) (found : Option (List ℕ × List ℕ))
        → Triple E
            (With E fails P apart W)
            (connect_to_socket os files user dir found)
            (λ _. With E fails P apart W)
    unfolding connect_to_socket display_connect
    connect_to_socket-Triple W dir none = Triple-pure _ (λ g l h. h)
    connect_to_socket-Triple W dir (some (path, name)) =
        Triple-bind (Triple-Silent fails (Silent-ask _ _ (created_or_not-signals _)))
          λ p. name_if-Triple W dir name p

    connect_in-Triple :
        (W : Wayland → Type 0) (dir : Option (List ℕ))
        → Triple E
            (With E fails P apart W)
            (connect_in os files user dir)
            (λ _. With E fails P apart W)
    unfolding connect_in
    connect_in-Triple W none = Triple-pure _ (λ g l h. h)
    connect_in-Triple W (some dir) = connect_to_socket-Triple W dir _

    connect_unless-Triple :
        (W : Wayland → Type 0) (p : Option ℕ)
        → Triple E
            (With E fails P apart W)
            (connect_unless os files user p)
            (λ _. With E fails P apart W)
    unfolding connect_unless
    connect_unless-Triple W none =
        Triple-bind_gets (λ g. _) λ dir. Triple-pre (λ g l h. h.0) (connect_in-Triple W dir)
    connect_unless-Triple W (some a) = Triple-pure _ (λ g l h. h)

    connect-Triple :
        (W : Wayland → Type 0)
        → Triple E
            (With E fails P apart W)
            (connect_to_wayland_best_effort os files user)
            (λ _. With E fails P apart W)
    unfolding connect_to_wayland_best_effort display_connect
    connect-Triple W =
        Triple-bind (Triple-Silent fails (Silent-ask _ _ (created_or_not-signals _)))
          λ p. connect_unless-Triple W p

    abandon-Triple :
        (d r : ℕ)
        → Triple E
            (With E fails P apart (IsOpening d r))
            (abandon_session os files user d r)
            (λ _. With E fails P apart IsClosed)
    unfolding abandon_session
    abandon-Triple d r =
        Triple-bind
          (release-Triple E fails P apart _ (λ w. w.wayland_idle_notification ≡ none) _ _ _
            (λ w h. h.2) (λ w h _. h.2))
          λ _.
            Triple-bind
              (release-Triple E fails P apart _ (λ w. w.wayland_idle_notification ≡ none) _ _ _
                (λ w h. h) (λ w h _. h))
              λ _. Triple-bind (Triple-Silent fails (Silent-emit _ (λ tr. refl))) λ _.
                Triple-bind
                  (set-Triple E fails P apart _
                    (λ w. (w.wayland_registry ≡ none) × (w.wayland_idle_notification ≡ none)) _
                    (λ w h. (refl, h)))
                  λ _. Triple-bind (Triple-Silent fails (Silent-emit _ (λ tr. refl))) λ _.
                    set-Triple E fails P apart _ IsClosed _ (λ w h. record {
                      no_display = refl;
                      no_registry = h.0;
                      no_seat = refl;
                      no_notifier = refl;
                      no_notification = h.1;
                    })

    bound-Triple :
        (d r : ℕ)
        → Triple E
            (λ g l.
              With E fails P apart (IsOpening d r) g l
              × (not (is_null g.wayland.wayland_seat || is_null g.wayland.wayland_idle_notifier)
                  ≡ true))
            (do set_wayland (λ w. record w { wayland_idle_notify_available = true }); pure true)
            SetUp
    unfolding set_wayland
    bound-Triple d r =
        Triple-bind_modify (SetUp true) _ _
          (λ g l h.
            let both = not_or _ _ (flipped _ h.1) in
            (
              apart g l _ g.environment h.0.0,
              record {
                has_display = ap is_null h.0.1.0;
                has_registry = ap is_null h.0.1.1;
                has_seat = both.0;
                has_notifier = both.1;
                available = refl;
              },
              h.0.1.2,
            ))
          (Triple-pure true (λ g l h. h))

    initialize_registry-Triple :
        (d : ℕ) (p : Option ℕ)
        → Triple E
            (With E fails P apart (InSetUp (some d) p))
            (initialize_registry os files user d p)
            SetUp
    unfolding initialize_registry is_bound
    initialize_registry-Triple d none =
        Triple-bind (Triple-Silent fails (Silent-emit _ (λ tr. refl))) λ _.
          Triple-bind
            (set-Triple E fails P apart _ IsClosed _ (λ w h. record {
              no_display = refl;
              no_registry = h.1;
              no_seat = h.2;
              no_notifier = h.3;
              no_notification = h.4;
            }))
            λ _. Triple-pure false (λ g l h. h)
    initialize_registry-Triple d (some r) =
        Triple-pre (λ g l h. (h.0, (h.1.0, h.1.1, h.1.4)))
          (Triple-bind (Triple-Silent fails (pass-Silent _ (some r) refl)) λ _.
            Triple-bind (Triple-Silent fails (call_display-Silent _ (some d) refl)) λ cs.
              Triple-bind (registry_callbacks-Triple os r d r cs) λ _.
                Triple-branch
                  (λ g.
                    not (is_null g.wayland.wayland_seat || is_null g.wayland.wayland_idle_notifier))
                  (bound-Triple d r)
                  (Triple-pre (λ g l h. h.0)
                    (Triple-bind (abandon-Triple d r) λ _. Triple-pure false (λ g l h. h))))

    initialize_display-Triple :
        (p : Option ℕ)
        → Triple E
            (With E fails P apart (InSetUp p none))
            (initialize_display os files user p)
            SetUp
    unfolding initialize_display
    initialize_display-Triple none = Triple-pure false (λ g l h. (
      h.0,
      record {
        no_display = h.1.0;
        no_registry = h.1.1;
        no_seat = h.1.2;
        no_notifier = h.1.3;
        no_notification = h.1.4;
      },
    ))
    initialize_display-Triple (some d) =
        Triple-bind (Triple-Silent fails (pass-Silent _ (some d) refl)) λ _.
          Triple-bind (Triple-Silent fails (Silent-ask _ _ (created_or_not-signals _))) λ p.
            Triple-bind
              (set-Triple E fails P apart _ (InSetUp (some d) p) _
                (λ w h. (h.0, refl, h.2, h.3, h.4)))
              λ _. initialize_registry-Triple d p

    -- From no session, the set-up makes a whole one or leaves none.
    pub try_initialize-Triple :
        Triple E
          (With E fails P apart IsClosed)
          (try_initialize_wayland_idle_backend os files user)
          SetUp
    unfolding try_initialize_wayland_idle_backend
    try_initialize-Triple = Triple-bind (connect-Triple IsClosed) λ p.
        Triple-bind
          (set-Triple E fails P apart _ (InSetUp p none) _
            (λ w h. (refl, h.no_registry, h.no_seat, h.no_notifier, h.no_notification)))
          λ _. initialize_display-Triple p
