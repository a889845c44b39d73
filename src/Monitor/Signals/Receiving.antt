-- ===== src/Monitor/Signals/Receiving.antt =====
-- Receiving signals changes the two variables for them, and nothing else.
use runwhenidle.Prelude.{ℕ, refl, inl, Bool, true, List, [], ◌∷◌, Bool-cases, inr, ◌==◌, ◌||◌}
use runwhenidle.Prelude.Int.{ℤ}
use runwhenidle.System.{
  Os, Globals, Claim, Triple, Triple-Silent, Triple-pre, Triple-modify, Triple-bind, Triple-when,
  Silent-ask, sigint, sigterm, sigchld,
}
use runwhenidle.Monitor.Signals.{
  take_signal, take_signals, process_signalfd, sleep_for_ms_with_signalfd,
}

-- A claim that does not depend on them.
abbrev pub IsSignalStable : Claim → Type 0
IsSignalStable I =
    (g : Globals) (l : List (ℤ × ℕ)) (n : ℕ) (b : Bool)
    → I g l
    → I (record g { interruption_received = n; sigchld_received = b }) l

module _ (I : Claim) (stable : IsSignalStable I) where
  take_signal-keep : (g : Globals) (l : List (ℤ × ℕ)) (n : ℕ) → I g l → I (take_signal g n) l
  unfolding take_signal
  take_signal-keep g l n h = elim (Bool-cases (n == sigint || n == sigterm)) [
    | inl e ↦ rw e (stable g l n g.sigchld_received h)
    | inr e ↦ rw e (elim (Bool-cases (n == sigchld)) [
      | inl e' ↦ rw e' (stable g l g.interruption_received true h)
      | inr e' ↦ rw e' h
    ])
  ]

  take_signals-keep :
      (ns : List ℕ) (g : Globals) (l : List (ℤ × ℕ)) → I g l → I (take_signals g ns) l
  unfolding take_signals
  take_signals-keep [] g l h = h
  take_signals-keep (n ∷ ns) g l h =
      take_signals-keep ns (take_signal g n) l (take_signal-keep g l n h)

  module _ (os : Os) (E : ℕ → Type 0) (fails : E 1) where
    pub process_signalfd-Triple : Triple E I (process_signalfd os) (λ _. I)
    unfolding process_signalfd
    process_signalfd-Triple =
        Triple-bind (Triple-Silent fails (Silent-ask _ _ (λ a tr. refl)))
          λ ns. Triple-modify _ (λ g l h. take_signals-keep ns g l h)

    pub sleep-Triple : (ms : ℤ) → Triple E I (sleep_for_ms_with_signalfd os ms) (λ _. I)
    unfolding sleep_for_ms_with_signalfd
    sleep-Triple ms = Triple-bind (Triple-Silent fails (Silent-ask _ _ (λ a tr. refl))) λ ready.
        Triple-when (λ _. ready) (Triple-pre (λ g l h. h.0) process_signalfd-Triple) (λ g l h _. h)
