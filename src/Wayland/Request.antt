-- ===== src/Wayland/Request.antt =====
-- What is asked of the compositor when monitoring starts.
use runwhenidle.Prelude.{
  ℕ, ◌≤◌, ◌<◌, ◌≡◌, refl, sym, ap, subst, ◌∙◌, true, not, Option, none, some, List, ◌∷◌, ltb, arith,
}
use mathlib.Core.Bool.{false≢true}
use runwhenidle.Prelude.Int.{ℤ, pos, negsuc}
use runwhenidle.System.{
  Os, Event, Kind, notifier, notification, created, not_created, used, wayland_call,
  request_idle_notification, State, Prog, ◌>>=◌, ask, emit, Wp, Wp-bind, Wp-ask, Wp-emit, Wp-pure,
  Wp-branch, Wp-bind_gets, Wp-bind_modify,
}
use runwhenidle.Wayland.{
  uint32_max, is_null, created_or_not, pass, set_wayland, timeout_ms_for_protocol,
  request_notification, listen_if_created, start_wayland_idle_notification_object,
}

Wp-pass :
    {B : Type 0} (kind : Kind) (p : Option ℕ) (a : ℕ) (f : Unit {0} → Prog B)
    {R : B → State → Type 0} {F : ℕ → State → Type 0} (s : State)
    → p ≡ some a
    → Wp (f tt) R F (record s { trace = wayland_call (used kind a) ∷ s.trace })
    → Wp (pass kind p >>= f) R F s
unfolding ◌>>=◌ pass emit
Wp-pass kind p a f {R} {F} s e w =
    subst (λ q. Wp (pass kind q >>= f) R F s) (sym e) (record { holds = w.holds })

module _ (os : Os) (s : State) (n m d : ℕ) where
  -- The trace when the request has been made, of the notifier `n` for the seat `m`.
  abbrev pub asked : List Event
  asked =
      request_idle_notification (not (ltb s.wayland.wayland_idle_notifier_version 2))
        (timeout_ms_for_protocol os s.user_idle_timeout_ms)
      ∷ wayland_call (used Kind.seat m)
      ∷ wayland_call (used notifier n)
      ∷ s.trace

  -- The result and the trace, by the notification that the compositor gives.
  abbrev pub Answered : Option ℕ → ℤ → List Event → Type 0
  Answered none r tr = (r ≡ negsuc 0) × (tr ≡ wayland_call (not_created notification) ∷ asked)
  Answered (some a) r tr =
      (r ≡ pos 1)
      × (tr
          ≡ wayland_call (used Kind.display d)
            ∷ wayland_call (used notification a)
            ∷ wayland_call (created notification a)
            ∷ asked)

  abbrev with_notification : Option ℕ → List Event → State
  with_notification p tr = record s {
    globals = record s.globals {
      wayland = record s.globals.wayland { wayland_idle_notification = p };
    };
    trace = tr;
  }

  abbrev pub Requested : ℤ → State → Type 0
  Requested r t = (p : Option ℕ) × (t ≡ with_notification p t.trace) × Answered p r t.trace

  module _ (has_notifier : s.wayland.wayland_idle_notifier ≡ some n)
      (has_seat : s.wayland.wayland_seat ≡ some m)
      (has_display : s.wayland.wayland_display ≡ some d) where
    request-Wp :
        Wp
          (request_notification os)
          (λ p t. t ≡ record s { trace = created_or_not notification p ∷ asked })
          (λ c t. ⊥)
          s
    unfolding request_notification
    request-Wp = Wp-bind_gets _ _ (
        Wp-pass _ _ n _ s has_notifier (
          Wp-pass _ _ m _ _ has_seat (
            Wp-bind {Q = λ _ t. t ≡ record s { trace = asked }} (Wp-emit _ refl)
              (λ _ t e.
                subst
                  (λ u.
                    Wp (ask os.wayland.get_idle_notification (created_or_not notification))
                      (λ p v. v ≡ record s { trace = created_or_not notification p ∷ asked })
                      (λ c v. ⊥) u)
                  (sym e) (Wp-ask _ _ refl))
              (λ c t h. h))))

    listen-Wp :
        (p : Option ℕ)
        → Wp
            (listen_if_created os p)
            Requested
            (λ c t. ⊥)
            (with_notification p (created_or_not notification p ∷ asked))
    unfolding listen_if_created
    listen-Wp none = Wp-pure _ (none, refl, (refl, refl))
    listen-Wp (some a) =
        Wp-pass _ (some a) a _ _ refl (
          Wp-bind_gets _ _ (Wp-pass _ _ d _ _ has_display (Wp-pure _ (some a, refl, (refl, refl)))))

    start-Wp :
        s.wayland.wayland_idle_notification ≡ none
        → s.wayland.wayland_idle_notify_available ≡ true
        → Wp (start_wayland_idle_notification_object os) Requested (λ c t. ⊥) s
    unfolding start_wayland_idle_notification_object set_wayland
    start-Wp absent available =
        Wp-branch _ _ _ (λ e. absurd (false≢true (sym (ap (λ p. not (is_null p)) absent) ∙ e)))
          (λ _.
            Wp-branch _ _ _ (λ e. absurd (false≢true (sym (ap not available) ∙ e)))
              (λ _.
                Wp-bind request-Wp
                  (λ p t e.
                    subst (λ u. Wp (then_listen p) Requested (λ c v. ⊥) u) (sym e)
                      (Wp-bind_modify _ _ (listen-Wp p)))
                  (λ c t h. h)))
      where
        then_listen : Option ℕ → Prog ℤ
        then_listen p = set_wayland (λ w. record w { wayland_idle_notification = p }) >>= λ _.
            listen_if_created os p

-- With a session whose pointers are set and no notification yet: exactly one notification is asked
-- for, of the notifier for the seat, about input alone where the notifier has version 2, and with
-- the timeout or the largest 32-bit number, whichever is less. The result is 1 with the
-- notification in its variable, or -1 with NULL there; nothing else changes, and no pointer that
-- is NULL is passed to the library.
pub start_notification_requests :
    (os : Os) (s : State) (n m d : ℕ)
    → s.wayland.wayland_idle_notifier ≡ some n
    → s.wayland.wayland_seat ≡ some m
    → s.wayland.wayland_display ≡ some d
    → s.wayland.wayland_idle_notification ≡ none
    → s.wayland.wayland_idle_notify_available ≡ true
    → Wp (start_wayland_idle_notification_object os) (Requested os s n m d) (λ c t. ⊥) s
      × (timeout_ms_for_protocol os s.user_idle_timeout_ms ≤ uint32_max)
      × (timeout_ms_for_protocol os s.user_idle_timeout_ms ≤ s.user_idle_timeout_ms)
      × (s.user_idle_timeout_ms ≤ uint32_max
          → timeout_ms_for_protocol os s.user_idle_timeout_ms ≡ s.user_idle_timeout_ms)
      × (uint32_max < s.user_idle_timeout_ms
          → timeout_ms_for_protocol os s.user_idle_timeout_ms ≡ uint32_max)
start_notification_requests os s n m d has_notifier has_seat has_display absent available = (
  start-Wp os s n m d has_notifier has_seat has_display absent available,
  ground arith,
  ground arith,
  λ h. ground arith,
  λ h. ground arith,
)
