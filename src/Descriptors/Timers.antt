-- ===== src/Descriptors/Timers.antt =====
-- What a timer is set to.
use runwhenidle.Prelude.{ℕ, ◌<◌, ◌≡◌, ◌↔◌, refl, true, false, arith, List, ◌∷◌}
use runwhenidle.Prelude.Int.{ℤ, pos, negsuc, ltb_ℤ, ◌≤ℤ◌, ≤ℤ_of_ltb_ℤ}
use runwhenidle.System.{
  Os, State, Event, Timespec, timerfd_create, timerfd_settime, close, Wp, Wp-bind_ask, Wp-bind_emit,
  Wp-branch, Wp-pure, Framed,
}
use runwhenidle.Monitor.Time.{in_ms}
use runwhenidle.Descriptors.{
  after_ms, never, create_timer, create_periodic_timer_file_descriptor_every_ms,
  create_one_shot_timer_file_descriptor_after_ms,
}

-- A timer that expires never, which is what timerfd_settime takes 0 for.
abbrev pub IsDisarmed : Timespec → Type 0
IsDisarmed t = (t.tv_sec ≡ 0) × (t.tv_nsec ≡ 0)

after_ms-in_ms :
    (delay : ℕ) → (in_ms (after_ms delay) ≡ delay) × ((after_ms delay).tv_nsec < 1_000_000_000)
unfolding in_ms after_ms
after_ms-in_ms delay = (omega arith, omega arith)

after_ms-IsDisarmed : (delay : ℕ) → IsDisarmed (after_ms delay) ↔ (delay ≡ 0)
unfolding after_ms
after_ms-IsDisarmed delay =
    (λ h. omega (arith, h.0, h.1), λ e. (omega (arith, e), omega (arith, e)))

-- The trace after a call that creates a timer with these two times, by what it returns and by what
-- the kernel answered.
pub data Created (os : Os) (value interval : Timespec) (before : List Event)
    : ℤ → List Event → Type 0 where
  not_created :
      ltb_ℤ (os.timerfd_create before) (pos 0) ≡ true
      → Created os value interval before (negsuc 0) (timerfd_create ∷ before)
  given_back :
      pos 0 ≤ℤ os.timerfd_create before
      → os.settime_fails (timerfd_create ∷ before) (os.timerfd_create before) ≡ true
      → Created os value interval before (negsuc 0) (
          close (os.timerfd_create before)
          ∷ timerfd_settime (os.timerfd_create before) value interval
          ∷ timerfd_create
          ∷ before)
  set :
      pos 0 ≤ℤ os.timerfd_create before
      → os.settime_fails (timerfd_create ∷ before) (os.timerfd_create before) ≡ false
      → Created os value interval before
          (os.timerfd_create before)
          (timerfd_settime (os.timerfd_create before) value interval ∷ timerfd_create ∷ before)

create_timer-Created :
    (os : Os) (value interval : Timespec) (s : State)
    → Wp
        (create_timer os value interval)
        (Framed s (Created os value interval s.trace))
        (λ c t. ⊥)
        s
unfolding create_timer
create_timer-Created os value interval s = Wp-bind_ask _ _ _ (
    Wp-branch _ _ _ (λ failed. Wp-pure _ (refl, not_created failed))
      (λ opened. Wp-bind_ask _ _ _ (
        Wp-branch _ _ _
          (λ failed. Wp-bind_emit _ _ (Wp-pure _ (refl, given_back (is_open opened) failed)))
          (λ succeeded. Wp-pure _ (refl, set (is_open opened) succeeded)))))
  where
    is_open : ltb_ℤ (os.timerfd_create s.trace) (pos 0) ≡ false → pos 0 ≤ℤ os.timerfd_create s.trace
    is_open = ≤ℤ_of_ltb_ℤ (os.timerfd_create s.trace) (pos 0)

-- Creating a one-shot or a periodic timer gives the descriptor of timerfd_create, set to the time
-- for that many milliseconds, where both calls succeed; it gives -1 where the descriptor is
-- negative, and -1 after closing the descriptor where timerfd_settime fails. The time is exactly that many milliseconds with less than a second of nanoseconds, and
-- it is 0, which disarms a timer, for 0 ms and only then.
pub timers_are_set :
    (os : Os) (ms : ℕ) (s : State)
    → Wp
        (create_one_shot_timer_file_descriptor_after_ms os ms)
        (Framed s (Created os (after_ms ms) never s.trace))
        (λ c t. ⊥)
        s
      × Wp
          (create_periodic_timer_file_descriptor_every_ms os ms)
          (Framed s (Created os (after_ms ms) (after_ms ms) s.trace))
          (λ c t. ⊥)
          s
      × (in_ms (after_ms ms) ≡ ms)
      × ((after_ms ms).tv_nsec < 1_000_000_000)
      × (IsDisarmed (after_ms ms) ↔ (ms ≡ 0))
unfolding create_one_shot_timer_file_descriptor_after_ms
    create_periodic_timer_file_descriptor_every_ms
timers_are_set os ms s = (
  record { holds = (create_timer-Created os (after_ms ms) never s).holds },
  record { holds = (create_timer-Created os (after_ms ms) (after_ms ms) s).holds },
  (after_ms-in_ms ms).0,
  (after_ms-in_ms ms).1,
  after_ms-IsDisarmed ms,
)
