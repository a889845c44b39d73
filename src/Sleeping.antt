-- ===== src/Sleeping.antt =====
-- sleep_utils.c, with nanosleep as a parameter. Nothing in the program calls it.
use runwhenidle.Prelude.{ℕ, ◌*◌, ◌/◌, ◌%◌, ◌+◌, ◌^◌, ◌<◌, ◌≡◌, refl, Option, some, arith}
use runwhenidle.Prelude.Int.{ℤ, pos, negsuc}
use runwhenidle.System.{Timespec}

abbrev pub einval : ℕ
einval = 22

-- What nanosleep returns, and the errno where it fails.
abbrev pub Slept : Type 0
Slept = ℤ × Option ℕ

module _ (nanosleep : Timespec → Slept) where
  pub sleep_for_milliseconds : ℤ → Slept
  sleep_for_milliseconds (negsuc n) = (negsuc 0, some einval)
  sleep_for_milliseconds (pos milliseconds) =
      nanosleep
        (record { tv_sec = milliseconds / 1000; tv_nsec = (milliseconds % 1000) * 1_000_000 })

-- A time that is not negative is slept once, for exactly the milliseconds asked for, and with
-- nanoseconds that nanosleep accepts; a negative one is refused without a call.
pub sleep_for_milliseconds_lem :
    (nanosleep : Timespec → Slept) (milliseconds n : ℕ)
    → ((time : Timespec) × (sleep_for_milliseconds nanosleep (pos milliseconds) ≡ nanosleep time)
        × (time.tv_nsec < 10 ^ 9)
        × (time.tv_sec * 10 ^ 9 + time.tv_nsec ≡ milliseconds * 10 ^ 6))
      × (sleep_for_milliseconds nanosleep (negsuc n) ≡ (negsuc 0, some einval))
unfolding sleep_for_milliseconds
sleep_for_milliseconds_lem nanosleep milliseconds n = (
  (
    record { tv_sec = milliseconds / 1000; tv_nsec = (milliseconds % 1000) * 1_000_000 },
    refl,
    omega arith,
    omega arith,
  ),
  refl,
)
