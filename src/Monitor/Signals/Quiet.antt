-- ===== src/Monitor/Signals/Quiet.antt =====
-- Receiving signals, and leaving after one, makes no call of the Wayland library.
use runwhenidle.Prelude.{ℕ, ◌≡◌, refl, ◌∙◌, List, [], ◌∷◌, ◌||◌, ◌==◌, Bool-cases, inl, inr}
use runwhenidle.Prelude.Int.{ℤ}
use runwhenidle.System.{
  Os, Globals, sigint, sigterm, sigchld, Mute, Mute-bind, Mute-ask, Mute-modify, Mute-forever,
  mute_rules,
}
use runwhenidle.Process.Signals.Quiet.{send_signal-Mute, resume_recursively-Mute}
use runwhenidle.Process.Exit.Quiet.{wait_synchronously-Mute, exit_if-Mute}
use runwhenidle.Monitor.Signals.{
  take_signal, take_signals, process_signalfd, sleep_for_ms_with_signalfd, forward_sigint,
  forward_sigterm, forward_interruption, resume_before_leaving, explain_resuming,
  wait_unless_external, handle_interruption, wait_round,
  resume_and_wait_for_pid_to_exit_checking_for_signals,
}

take_signal-wayland : (g : Globals) (n : ℕ) → (take_signal g n).wayland ≡ g.wayland
unfolding take_signal
take_signal-wayland g n = elim (Bool-cases (n == sigint || n == sigterm)) [
  | inl e ↦ rw e refl
  | inr e ↦ rw e (elim (Bool-cases (n == sigchld)) [ inl e' ↦ rw e' refl | inr e' ↦ rw e' refl ])
]

take_signals-wayland : (ns : List ℕ) (g : Globals) → (take_signals g ns).wayland ≡ g.wayland
unfolding take_signals
take_signals-wayland [] g = refl
take_signals-wayland (n ∷ ns) g =
    take_signals-wayland ns (take_signal g n) ∙ take_signal-wayland g n

module _ (os : Os) where
  pub process_signalfd-Mute : Mute (process_signalfd os)
  unfolding process_signalfd
  process_signalfd-Mute =
      Mute-bind _ _ (Mute-ask _ _ (λ a tr. refl))
        (λ ns. Mute-modify _ (λ g. take_signals-wayland ns g))

  sleep-Mute : (ms : ℤ) → Mute (sleep_for_ms_with_signalfd os ms)
  unfolding sleep_for_ms_with_signalfd
  sleep-Mute ms = search (mute_rules, process_signalfd-Mute) depth 40

  forward-Mute : (n : ℕ) → Mute (forward_interruption os n)
  unfolding forward_interruption forward_sigint forward_sigterm
  forward-Mute n = search (mute_rules, send_signal-Mute) depth 60

  resume_before-Mute : Mute (resume_before_leaving os)
  unfolding resume_before_leaving
  resume_before-Mute = search (mute_rules, resume_recursively-Mute) depth 40

  explain-Mute : Mute (explain_resuming os)
  unfolding explain_resuming
  explain-Mute = search mute_rules depth 40

  wait_unless-Mute : Mute (wait_unless_external os)
  unfolding wait_unless_external
  wait_unless-Mute = search (mute_rules, wait_synchronously-Mute) depth 40

  pub handle_interruption-Mute : Mute (handle_interruption os)
  unfolding handle_interruption
  handle_interruption-Mute =
      search (mute_rules, forward-Mute, resume_before-Mute, explain-Mute, wait_unless-Mute) depth 60

  wait_round-Mute : (x : Unit {0}) → Mute (wait_round os x)
  unfolding wait_round
  wait_round-Mute x =
      search (mute_rules, handle_interruption-Mute, exit_if-Mute, sleep-Mute) depth 60

  pub resume_and_wait-Mute :
      (rounds : ℕ) → Mute (resume_and_wait_for_pid_to_exit_checking_for_signals os rounds)
  unfolding resume_and_wait_for_pid_to_exit_checking_for_signals
  resume_and_wait-Mute rounds =
      search (mute_rules, resume_before-Mute, Mute-forever, wait_round-Mute) depth 60
