-- ===== src/Descriptors/Reading.antt =====
-- What the reading of a timer that has expired returns.
use runwhenidle.Prelude.{ℕ, zero, suc, ◌≡◌, ◌<◌, ◌≢◌, List, ◌∷◌, Bool, ◌==◌}
use runwhenidle.Prelude.Int.{ℤ}
use runwhenidle.System.{Os, State, Event, TimerRead, bytes_read, read_failed, read_timer}
use runwhenidle.Descriptors.{eintr, eagain}

-- A read of the whole counter, or nothing to read.
abbrev pub is_consumed : TimerRead → Bool
is_consumed (bytes_read n) = n == 8
is_consumed (read_failed errno) = errno == eagain

-- The trace after so many reads.
abbrev pub reads : ℤ → ℕ → List Event → List Event
reads fd zero before = before
reads fd (suc n) before = reads fd n (read_timer fd ∷ before)

module _ (os : Os) (fd : ℤ) where
  -- The answer of the read that follows so many others.
  abbrev pub answer_after : ℕ → List Event → TimerRead
  answer_after n before = os.read_timer (reads fd n before) fd

  -- The first so many reads are interrupted.
  abbrev pub AllInterrupted : ℕ → List Event → Type 0
  AllInterrupted zero before = Unit {0}
  AllInterrupted (suc n) before =
      (os.read_timer before fd ≡ read_failed eintr) × AllInterrupted n (read_timer fd ∷ before)

  -- The first read that is not interrupted is one of the rounds.
  abbrev pub EndsAfter : ℕ → ℕ → List Event → Type 0
  EndsAfter rounds k before =
      (k < rounds) × AllInterrupted k before × (answer_after k before ≢ read_failed eintr)

  abbrev StillReading : ℕ → State → Unit {0} → State → Type 0
  StillReading rounds s _ t =
      AllInterrupted rounds s.trace × (t ≡ record s { trace = reads fd rounds s.trace })

  abbrev Read : ℕ → State → TimerRead → State → Type 0
  Read rounds s r t = (k : ℕ) × EndsAfter rounds k s.trace × (r ≡ answer_after k s.trace)
