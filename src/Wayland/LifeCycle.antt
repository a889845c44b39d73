-- ===== src/Wayland/LifeCycle.antt =====
-- The objects over a whole session, from the connection to the release.
use runwhenidle.Prelude.{ℕ, ◌≡◌, refl, sym, ap, ◌∙◌, Bool, true, false, Option, none, some, List}
use runwhenidle.Prelude.Int.{ℤ, negsuc}
use runwhenidle.System.{
  Os, Kind, notifier, notification, Wayland, branch, gets, pure, ◌>>=◌, ◌>>◌, Prog, Mute-modify,
  Mute-gets,
}
use runwhenidle.Environment.Files.{Files}
use runwhenidle.Environment.Session.{User}
use runwhenidle.Wayland.{
  display_connect, name_if_connected, connect_to_socket, connect_in, connect_unless,
  connect_to_wayland_best_effort, clear_notification, clear_notifier, clear_seat, clear_registry,
  clear_display, try_initialize_wayland_idle_backend, release_session,
  try_monitor_wayland_idle_notify,
}
use runwhenidle.Wayland.Objects.{nothing, get, put, pointers}
use runwhenidle.Wayland.Lives.{
  Relation, Lives, Lives-pure, Lives-pre, Lives-Mute, Lives-bind, Lives-bind_gets, Lives-create,
  Lives-set,
}
use runwhenidle.Wayland.Orderly.{Matches, release-Lives}
use runwhenidle.Wayland.Safe.{Safe}
use runwhenidle.Wayland.SetUp.{Is, WithoutNotification, Result, initialize_display-Lives}

-- After the release of all that stands before them.
abbrev WithoutNotifier : Wayland → Type 0
WithoutNotifier w = WithoutNotification w × (w.wayland_idle_notifier ≡ none)

abbrev WithoutSeat : Wayland → Type 0
WithoutSeat w = WithoutNotifier w × (w.wayland_seat ≡ none)

abbrev WithoutRegistry : Wayland → Type 0
WithoutRegistry w = WithoutSeat w × (w.wayland_registry ≡ none)

empty : (w : Wayland) → WithoutRegistry w → w.wayland_display ≡ none → pointers w ≡ nothing
empty w h e = λ i. record {
  a_display = e i;
  a_registry = h.1 i;
  a_seat = h.0.1 i;
  a_notifier = h.0.0.1 i;
  a_notification = h.0.0.0 i;
}

module _ (os : Os) (files : Files) (user : User) where
  release_session-Lives :
      Lives
        (Matches (λ _. Unit {0}))
        (release_session os files user)
        (λ _. Matches (λ w. pointers w ≡ nothing))
  unfolding release_session
  release_session-Lives =
      Lives-bind
        (release-Lives {P' = WithoutNotification} notification _ clear_notification (λ w. refl)
          (λ w. refl) (λ w h. tt) (λ w h. refl) (λ w h e. e))
        λ _.
          Lives-bind
            (release-Lives {P' = WithoutNotifier} notifier _ clear_notifier (λ w. refl) (λ w. refl)
              (λ w h. tt) (λ w h. (h, refl)) (λ w h e. (h, e)))
            λ _.
              Lives-bind
                (release-Lives {P' = WithoutSeat} Kind.seat _ clear_seat (λ w. refl) (λ w. refl)
                  (λ w h. tt) (λ w h. (h, refl)) (λ w h e. (h, e)))
                λ _.
                  Lives-bind
                    (release-Lives {P' = WithoutRegistry} Kind.registry _ clear_registry (λ w. refl)
                      (λ w. refl) (λ w h. tt) (λ w h. (h, refl)) (λ w h e. (h, e)))
                    λ _.
                      release-Lives Kind.display _ clear_display (λ w. refl) (λ w. refl)
                        (λ w h. (h.1, h.0.1, h.0.0.1, h.0.0.0))
                        (λ w h. empty (clear_display w) h refl) (λ w h e. empty w h e)

  -- A connection, before its address is stored.
  abbrev Connected : Option ℕ → Relation
  Connected p = Is (put Kind.display p nothing) nothing

  named :
      (dir name : List ℕ) (p : Option ℕ)
      → Lives (Connected p) (name_if_connected os files user dir name p) Connected
  unfolding name_if_connected
  named dir name none = Lives-pure none (λ w o h. h)
  named dir name (some a) =
      Lives-bind (Lives-Mute (Mute-modify _ (λ g. refl))) λ _. Lives-pure (some a) (λ w o h. h)

  display_connect-Lives :
      (name : Option (List ℕ))
      → Lives (Connected none) (display_connect os files user name) Connected
  unfolding display_connect
  display_connect-Lives name =
      Lives-create Kind.display _ (λ w o h. ap (get Kind.display) h.0) (λ w o h. h)
        (λ w o a h. (ap (put Kind.display (some a)) h.0, h.1))

  connect_to_socket-Lives :
      (dir : List ℕ) (found : Option (List ℕ × List ℕ))
      → Lives (Connected none) (connect_to_socket os files user dir found) Connected
  unfolding connect_to_socket
  connect_to_socket-Lives dir none = Lives-pure none (λ w o h. h)
  connect_to_socket-Lives dir (some (path, name)) =
      Lives-bind (display_connect-Lives (some path)) λ p. named dir name p

  connect_in-Lives :
      (dir : Option (List ℕ)) → Lives (Connected none) (connect_in os files user dir) Connected
  unfolding connect_in
  connect_in-Lives none = Lives-pure none (λ w o h. h)
  connect_in-Lives (some dir) = connect_to_socket-Lives dir _

  connect_unless-Lives :
      (p : Option ℕ) → Lives (Connected p) (connect_unless os files user p) Connected
  unfolding connect_unless
  connect_unless-Lives none = Lives-bind (Lives-Mute (Mute-gets _)) λ dir. connect_in-Lives dir
  connect_unless-Lives (some a) = Lives-pure (some a) (λ w o h. h)

  try_initialize-Lives :
      Lives
        (Is nothing nothing)
        (try_initialize_wayland_idle_backend os files user)
        (Result os files user)
  unfolding try_initialize_wayland_idle_backend connect_to_wayland_best_effort
  try_initialize-Lives =
      Lives-bind (Lives-bind (display_connect-Lives none) λ p. connect_unless-Lives p) λ p.
        Lives-bind
          (Lives-set {J = λ _. Matches (λ w. pointers w ≡ put Kind.display p nothing)} _ (λ w o h.
            let now : pointers (record w { wayland_display = p }) ≡ put Kind.display p nothing =
              ap (put Kind.display p) h.1 in
            (h.0 ∙ sym now, now)))
          λ _. initialize_display-Lives os files user p

  pub monitor-Lives :
      (loop : Option ℕ → Prog ℤ)
      → ((d : Option ℕ) → Safe d (loop d))
      → Lives
          (Is nothing nothing)
          (try_monitor_wayland_idle_notify os files user loop)
          (λ _. Matches (λ w. pointers w ≡ nothing))
  unfolding try_monitor_wayland_idle_notify branch pure
  monitor-Lives loop safe = Lives-bind try_initialize-Lives λ ok. with_result ok
    where
      with_result :
          (ok : Bool)
          → Lives
              (Result os files user ok)
              (branch
                (λ _. ok)
                (do
                  display ← gets (λ s. s.wayland.wayland_display)
                  result ← loop display
                  release_session os files user
                  pure result)
                (pure (negsuc 0)))
              (λ _. Matches (λ w. pointers w ≡ nothing))
      with_result true =
          Lives-bind_gets (λ w. w.wayland_display)
            λ d. Lives-bind (Lives-pre (λ w o h. (h.0.0, h.1)) (safe d).lives) λ r.
              Lives-bind (Lives-pre (λ w o h. (h.0, tt)) release_session-Lives)
                λ _. Lives-pure r (λ w o h. h)
      with_result false = Lives-pure (negsuc 0) (λ w o h. h)
