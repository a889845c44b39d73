-- ===== src/Examples/Timer.antt =====
-- The theorems on timers, for 1500 ms.
use runwhenidle.Prelude.{ℕ, ◌<◌, ◌≡◌, ◌↔◌}
use runwhenidle.System.{Wp, Framed}
use runwhenidle.Monitor.Time.{in_ms}
use runwhenidle.Descriptors.{
  after_ms, never, create_one_shot_timer_file_descriptor_after_ms,
  create_periodic_timer_file_descriptor_every_ms,
}
use runwhenidle.Descriptors.Timers.{Created, IsDisarmed, timers_are_set}
use runwhenidle.Examples.Kernel.{kernel, monitoring}

abbrev delay : ℕ
delay = 1500

timers_are_set_example :
    Wp
      (create_one_shot_timer_file_descriptor_after_ms kernel delay)
      (Framed monitoring (Created kernel (after_ms delay) never monitoring.trace))
      (λ c t. ⊥)
      monitoring
    × Wp
        (create_periodic_timer_file_descriptor_every_ms kernel delay)
        (Framed monitoring (Created kernel (after_ms delay) (after_ms delay) monitoring.trace))
        (λ c t. ⊥)
        monitoring
    × (in_ms (after_ms delay) ≡ delay)
    × ((after_ms delay).tv_nsec < 1_000_000_000)
    × (IsDisarmed (after_ms delay) ↔ (delay ≡ 0))
timers_are_set_example = timers_are_set kernel delay monitoring
