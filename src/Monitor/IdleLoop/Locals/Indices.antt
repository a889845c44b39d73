-- ===== src/Monitor/IdleLoop/Locals/Indices.antt =====
-- The array for poll() and the indices into it.
use runwhenidle.Prelude.{
  ℕ, zero, suc, ◌≤◌, ◌≡◌, refl, inl, inr, true, false, Bool-cases, Option, none, some, List, [],
  ◌∷◌, length, arith,
}
use runwhenidle.Prelude.Int.{ℤ, pos, ltb_ℤ}
use runwhenidle.System.{Pollfd}
use runwhenidle.Monitor.IdleLoop.Locals.{
  LoopLocals, poll_file_descriptors, process_exit_poll_index, external_pid_fallback_poll_index,
}

abbrev pub fd_at : List Pollfd → ℕ → Option ℤ
fd_at [] i = none
fd_at (e ∷ es) zero = some e.fd
fd_at (e ∷ es) (suc i) = fd_at es i

-- What an index names: the descriptor, exactly where it is open.
abbrev pub Names : List Pollfd → ℤ → Option ℕ → Type 0
Names es fd none = ltb_ℤ fd (pos 0) ≡ true
Names es fd (some i) = (ltb_ℤ fd (pos 0) ≡ false) × (fd_at es i ≡ some fd)

-- The array has room for the descriptors, the first three are those of the display, the timer and the
-- signals, and each of the two others has an index exactly where it is open, which names it.
pub poll_indices_lem :
    (signal_fd : ℤ) (l : LoopLocals)
    → (length (poll_file_descriptors signal_fd l) ≤ 5)
      × (fd_at (poll_file_descriptors signal_fd l) 0 ≡ some l.wayland_display_file_descriptor)
      × (fd_at (poll_file_descriptors signal_fd l) 1 ≡ some l.start_monitor_polled)
      × (fd_at (poll_file_descriptors signal_fd l) 2 ≡ some signal_fd)
      × Names
          (poll_file_descriptors signal_fd l)
          l.process_exit_wait_file_descriptor
          (process_exit_poll_index l)
      × Names
          (poll_file_descriptors signal_fd l)
          l.fallback_check_timer_file_descriptor
          (external_pid_fallback_poll_index l)
unfolding poll_file_descriptors process_exit_poll_index external_pid_fallback_poll_index
poll_indices_lem signal_fd l =
    elim (Bool-cases (ltb_ℤ l.process_exit_wait_file_descriptor (pos 0))) [
      | inl a ↦ elim (Bool-cases (ltb_ℤ l.fallback_check_timer_file_descriptor (pos 0))) [
        | inl b ↦ rw a (rw b (omega arith, refl, refl, refl, a, b))
        | inr b ↦ rw a (rw b (omega arith, refl, refl, refl, a, (b, refl)))
      ]
      | inr a ↦ elim (Bool-cases (ltb_ℤ l.fallback_check_timer_file_descriptor (pos 0))) [
        | inl b ↦ rw a (rw b (omega arith, refl, refl, refl, (a, refl), b))
        | inr b ↦ rw a (rw b (omega arith, refl, refl, refl, (a, refl), (b, refl)))
      ]
    ]
