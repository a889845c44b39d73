-- ===== src/Descriptors.antt =====
-- Timers as file descriptors (descriptor_utils.c).
pub mod Timers
pub mod Reading
pub mod Silence
pub mod Quiet
use runwhenidle.Prelude.{
  ℕ, ◌*◌, ◌/◌, ◌%◌, String, Bool, false, if◌then◌else◌, not, ◌||◌, Option, none, some, [], ◌∷◌,
  ◌==◌,
}
use runwhenidle.Prelude.Int.{ℤ, pos, negsuc, ltb_ℤ}
use runwhenidle.System.{
  Os, Timespec, TimerRead, bytes_read, read_failed, timerfd_create, timerfd_settime, read_timer,
  close, Arg, Prog, Round, again, done, forever, ◌>>=◌, ◌>>◌, pure, ask, emit, branch,
  fprintf_error,
}

abbrev pub eintr : ℕ
eintr = 4

abbrev pub eagain : ℕ
eagain = 11

-- A delay of so many milliseconds, which are not negative.
pub after_ms : ℕ → Timespec
after_ms delay_ms = record { tv_sec = delay_ms / 1000; tv_nsec = (delay_ms % 1000) * 1_000_000 }

abbrev pub never : Timespec
never = record { tv_sec = 0; tv_nsec = 0 }

module _ (os : Os) where
  -- What the two functions that create a timer share.
  create_timer : Timespec → Timespec → Prog ℤ
  create_timer value interval = do
    fd ← ask os.timerfd_create (λ _. timerfd_create)
    branch (λ _. ltb_ℤ fd (pos 0)) (pure (negsuc 0))
        (do
          failed ← ask (λ h. os.settime_fails h fd) (λ _. timerfd_settime fd value interval)
          branch (λ _. failed) (do emit (close fd); pure (negsuc 0)) (pure fd))

  -- Where the time is negative: timerfd_settime refuses it.
  pub create_refused_timer : Prog ℤ
  create_refused_timer = do
    fd ← ask os.timerfd_create (λ _. timerfd_create)
    branch (λ _. ltb_ℤ fd (pos 0)) (pure (negsuc 0)) (do emit (close fd); pure (negsuc 0))

  pub create_one_shot_timer_file_descriptor_after_ms : ℕ → Prog ℤ
  create_one_shot_timer_file_descriptor_after_ms delay_ms = create_timer (after_ms delay_ms) never

  pub create_periodic_timer_file_descriptor_every_ms : ℕ → Prog ℤ
  create_periodic_timer_file_descriptor_every_ms interval_ms =
      create_timer (after_ms interval_ms) (after_ms interval_ms)

  report_close : ℤ → String → Option ℕ → Prog (Unit {0})
  report_close fd description none = pure tt
  report_close fd description (some errno) =
      fprintf_error os "Failed to close %s file descriptor %d: %s\n"
        (Arg.lit description ∷ Arg.num fd ∷ Arg.error_text errno ∷ [])

  -- What the descriptor is set to.
  pub close_file_descriptor_if_open : ℤ → String → Prog ℤ
  close_file_descriptor_if_open fd description =
      branch (λ _. ltb_ℤ fd (pos 0)) (pure fd)
        (do
          failed ← ask (λ h. os.close_fails h fd) (λ _. close fd)
          report_close fd description failed
          pure (negsuc 0))

  -- What follows a read that was not interrupted.
  consumed : String → TimerRead → Prog ℤ
  consumed description (bytes_read n) =
      branch (λ _. n == 8) (pure (pos 0))
        (do
          fprintf_error os "Short read from %s timer file descriptor: got %zd bytes, expected %zu\n"
              (Arg.lit description ∷ Arg.nat n ∷ Arg.nat 8 ∷ [])
          pure (negsuc 0))
  consumed description (read_failed errno) =
      branch (λ _. errno == eagain) (pure (pos 0))
        (do
          fprintf_error os "Failed to read %s timer file descriptor: %s\n"
              (Arg.lit description ∷ Arg.error_text errno ∷ [])
          pure (negsuc 0))

  abbrev pub is_interrupted : TimerRead → Bool
  is_interrupted (bytes_read n) = false
  is_interrupted (read_failed errno) = errno == eintr

  read_round : ℤ → Unit {0} → Prog (Round (Unit {0}) TimerRead)
  read_round fd _ = do
    result ← ask (λ h. os.read_timer h fd) (λ _. read_timer fd)
    pure (if is_interrupted result then again tt else done result)

  -- The rounds are a bound on how often the read is interrupted.
  pub consume_timer_file_descriptor_checked : ℕ → ℤ → String → Prog ℤ
  consume_timer_file_descriptor_checked rounds fd description = do
    result ← forever rounds (read_round fd) tt
    consumed description result
