-- ===== src/Descriptors/Silence.antt =====
-- Timers and descriptors change no variable and send no signal.
use runwhenidle.Prelude.{
  ℕ, suc, String, ◌≡◌, refl, ◌⊎◌, inl, inr, none, some, Option, List, Bool, true, false,
  if◌then◌else◌, sym, subst,
}
use mathlib.Core.Bool.{false≢true}
use runwhenidle.Prelude.Int.{ℤ, pos, negsuc, ◌≤ℤ◌, ltb_ℤ, ≤ℤ_of_ltb_ℤ}
use runwhenidle.System.{
  Os, Event, Timespec, TimerRead, bytes_read, read_failed, State, signals, Framed, Round, again,
  done, LastRound, Wp-bind, Wp-ask, Wp-pure, forever, forever-last, Silent, Silent-pure, Silent-ask,
  Silent-emit, Silent-error, Silent-branch, Silent-bind, Claim, Triple, Triple-Silent, Triple-pure,
  Triple-bind, Triple-branch, Triple-fact,
}
use runwhenidle.Descriptors.{
  create_timer, create_refused_timer, create_one_shot_timer_file_descriptor_after_ms,
  create_periodic_timer_file_descriptor_every_ms, report_close, close_file_descriptor_if_open,
  consumed, is_interrupted, read_round, consume_timer_file_descriptor_checked,
}

-- A read of a timer is not interrupted: its descriptor does not block.
abbrev pub ReadsAtOnce : Os → Type 0
ReadsAtOnce os = (h : List Event) (fd : ℤ) → is_interrupted os (os.read_timer h fd) ≡ false

module _ (os : Os) where
  create_timer-Silent : (value interval : Timespec) → Silent (create_timer os value interval)
  unfolding create_timer
  create_timer-Silent value interval = Silent-bind _ _ (Silent-ask _ _ (λ a tr. refl)) λ fd.
      Silent-branch _ _ _ (Silent-pure _) (
        Silent-bind _ _ (Silent-ask _ _ (λ a tr. refl)) λ failed.
          Silent-branch _ _ _ (Silent-bind _ _ (Silent-emit _ (λ tr. refl)) (λ _. Silent-pure _))
            (Silent-pure _))

  pub periodic-Silent : (ms : ℕ) → Silent (create_periodic_timer_file_descriptor_every_ms os ms)
  unfolding create_periodic_timer_file_descriptor_every_ms
  periodic-Silent ms = create_timer-Silent _ _

  report_close-Silent :
      (fd : ℤ) (description : String) (failed : Option ℕ)
      → Silent (report_close os fd description failed)
  unfolding report_close
  report_close-Silent fd description none = Silent-pure tt
  report_close-Silent fd description (some errno) = Silent-error _ _ _

  pub close-Silent :
      (fd : ℤ) (description : String) → Silent (close_file_descriptor_if_open os fd description)
  unfolding close_file_descriptor_if_open
  close-Silent fd description = Silent-branch _ _ _ (Silent-pure _) (
      Silent-bind _ _ (Silent-ask _ _ (λ a tr. refl))
        λ failed. Silent-bind _ _ (report_close-Silent fd description failed) (λ _. Silent-pure _))

  consumed-Silent : (description : String) (r : TimerRead) → Silent (consumed os description r)
  unfolding consumed
  consumed-Silent description (bytes_read n) =
      Silent-branch _ _ _ (Silent-pure _)
        (Silent-bind _ _ (Silent-error _ _ _) (λ _. Silent-pure _))
  consumed-Silent description (read_failed errno) =
      Silent-branch _ _ _ (Silent-pure _)
        (Silent-bind _ _ (Silent-error _ _ _) (λ _. Silent-pure _))

  module _ (at_once : ReadsAtOnce os) (fd : ℤ) where
    abbrev Unchanged : State → TimerRead → State → Type 0
    Unchanged s r t = Framed s (λ _ tr. signals tr ≡ signals s.trace) r t

    abbrev reread : Bool → TimerRead → Round (Unit {0}) TimerRead
    reread b r = if b then again tt else done r

    last-if :
        (b : Bool) (r : TimerRead) (s t : State)
        → b ≡ false
        → Unchanged s r t
        → LastRound (Unchanged s) (reread b r) t
    last-if true r s t e h = absurd (false≢true (sym e))
    last-if false r s t e h = h

    first_read-Silent : (retries : ℕ) → Silent (forever (suc retries) (read_round os fd) tt)
    unfolding read_round
    first_read-Silent retries = record {
      at = λ s. forever-last _ _ (read_round os fd) retries (
          Wp-bind {Q = λ r t. (h : List Event) × (r ≡ os.read_timer h fd) × Unchanged s r t}
            (Wp-ask _ _ (s.trace, refl, (refl, refl)))
            (λ r t h. Wp-pure _ (
              last-if (is_interrupted os r) r s t
                (subst (λ x. is_interrupted os x ≡ false) (sym h.1) (at_once h.0 fd)) h.2))
            (λ c t h. h));
    }

    pub consume-Silent :
        (retries : ℕ) (description : String)
        → Silent (consume_timer_file_descriptor_checked os (suc retries) fd description)
    unfolding consume_timer_file_descriptor_checked
    consume-Silent retries description =
        Silent-bind _ _ (first_read-Silent retries) (λ r. consumed-Silent description r)

-- A descriptor, or -1.
abbrev pub IsDescriptor : ℤ → Type 0
IsDescriptor r = (r ≡ negsuc 0) ⊎ (pos 0 ≤ℤ r)

pub one_shot-Triple :
    (os : Os) (E : ℕ → Type 0) (fails : E 1) (I : Claim) (ms : ℕ)
    → Triple E I
        (create_one_shot_timer_file_descriptor_after_ms os ms)
        (λ r g l. I g l × IsDescriptor r)
unfolding create_one_shot_timer_file_descriptor_after_ms create_timer
one_shot-Triple os E fails I ms =
    Triple-bind (Triple-Silent fails (Silent-ask _ _ (λ a tr. refl))) λ fd.
      Triple-branch (λ _. ltb_ℤ fd (pos 0)) (Triple-pure _ (λ g l h. (h.0, inl refl)))
        (Triple-fact (λ g l h. ≤ℤ_of_ltb_ℤ fd (pos 0) h.1)
          λ opened. Triple-bind (Triple-Silent fails (Silent-ask _ _ (λ a tr. refl))) λ failed.
            Triple-branch (λ _. failed)
              (Triple-bind (Triple-Silent fails (Silent-emit _ (λ tr. refl)))
                λ _. Triple-pure _ (λ g l h. (h.0.0, inl refl)))
              (Triple-pure _ (λ g l h. (h.0.0, inr opened))))

pub refused-Triple :
    (os : Os) (E : ℕ → Type 0) (fails : E 1) (I : Claim)
    → Triple E I (create_refused_timer os) (λ r g l. I g l × IsDescriptor r)
unfolding create_refused_timer
refused-Triple os E fails I =
    Triple-bind (Triple-Silent fails (Silent-ask _ _ (λ a tr. refl))) λ fd.
      Triple-branch (λ _. ltb_ℤ fd (pos 0)) (Triple-pure _ (λ g l h. (h.0, inl refl)))
        (Triple-bind (Triple-Silent fails (Silent-emit _ (λ tr. refl)))
          λ _. Triple-pure _ (λ g l h. (h.0, inl refl)))
