-- ===== src/Arguments/Options/Ranges.antt =====
-- Whatever options are given, the settings have passed the tests that the program makes of them, which
-- for the time to the start of monitoring is one against 0 alone.
use runwhenidle.Prelude.{
  ℕ, ◌*◌, ◌≤◌, ◌≡◌, ◌≢◌, refl, inl, inr, Bool, true, false, ◌||◌, List, [], ◌∷◌, length, arith,
  ||_false, ==_iff,
}
use runwhenidle.Prelude.Int.{ℤ, pos, pos_part, ◌≤ℤ◌, ltb_ℤ, ≤ℤ_of_ltb_ℤ}
use runwhenidle.Libc.Strtol.{strtol}
use mathlib.Core.List.{Memᴰ}
use runwhenidle.System.{
  Os, Globals, PauseMethod, unknown, Event, Claim, Triple, Triple-Silent, Triple-pre, Triple-pure,
  Triple-exit, Triple-modify, Triple-bind, Triple-bind_modify, Triple-branch, Triple-when,
  Triple-fact, Silent-error, Silent-stderr,
}
use runwhenidle.Arguments.Usage.{print_usage-Silent, print_version-Silent, print_buffered-Silent}
use runwhenidle.Arguments.Options.Method.{IsExit, handle_method-Triple}
use runwhenidle.Arguments.Options.{
  ParsedOption, CommandLine, is_bad_number, reject_timeout, handle_timeout, reject_pid, handle_pid,
  reject_start_monitor_after, handle_start_monitor_after, reject_option, handle_option,
  handle_options,
}

-- What the program tests: both bounds of the timeout, that the time to the start of monitoring is not
-- negative (the maximum that the error message gives for it is never tested), that the method is
-- known, and that a process id is not negative.
pub record IsTested (g : Globals) : Type 0 where
  pub timeout_low : 1000 ≤ g.user_idle_timeout_ms
  pub timeout_high : g.user_idle_timeout_ms ≤ 100_000_000_000
  pub start : pos 0 ≤ℤ g.start_monitor_after_ms
  pub method : g.pause_method ≢ unknown
  pub pid : pos 0 ≤ℤ g.external_pid

-- No --pause-method argument is so short that making it upper case is undefined.
abbrev pub IsLongMethod : ParsedOption → Type 0
IsLongMethod o = o.option ≡ b'm' → 7 ≤ length o.optarg

IsTested-flags :
    (g : Globals) (v d q : Bool)
    → IsTested g
    → IsTested (record g { verbose = v; debug = d; quiet = q })
IsTested-flags g v d q h = record {
  timeout_low = h.timeout_low;
  timeout_high = h.timeout_high;
  start = h.start;
  method = h.method;
  pid = h.pid;
}

abbrev pub Tested : Claim
Tested g l = IsTested g

-- What the tests leave.
accepted :
    (value : ℤ) (bad : Bool)
    → ltb_ℤ value (pos 1) || ltb_ℤ (pos 100_000_000) value || bad ≡ false
    → (1000 ≤ pos_part value * 1000) × (pos_part value * 1000 ≤ 100_000_000_000)
accepted value bad e =
    let above = ||_false (ltb_ℤ value (pos 1) || ltb_ℤ (pos 100_000_000) value) bad e in
    let both = ||_false (ltb_ℤ value (pos 1)) (ltb_ℤ (pos 100_000_000) value) above.0 in
    let low = ≤ℤ_of_ltb_ℤ value (pos 1) both.0 in
    let high = ≤ℤ_of_ltb_ℤ (pos 100_000_000) value both.1 in ground arith

positive : (value : ℤ) (bad : Bool) → ltb_ℤ value (pos 1) || bad ≡ false → pos 0 ≤ℤ value
positive value bad e =
    let low = ≤ℤ_of_ltb_ℤ value (pos 1) (||_false (ltb_ℤ value (pos 1)) bad e).0 in omega arith

module _ (os : Os) (cl : CommandLine) where
  pub reject_timeout-Triple :
      {I : Claim} {J : Unit {0} → Claim} (o : ParsedOption)
      → Triple IsExit I (reject_timeout os cl o) J
  unfolding reject_timeout
  reject_timeout-Triple o =
      Triple-bind (Triple-Silent (inr refl) (print_buffered-Silent os cl.getopt_error)) λ _.
        Triple-bind (Triple-Silent (inr refl) (Silent-error os _ _)) λ _. Triple-exit 1 (inr refl)

  handle_timeout-Triple :
      (o : ParsedOption) → Triple IsExit Tested (handle_timeout os cl o) (λ _. Tested)
  unfolding handle_timeout
  handle_timeout-Triple o = Triple-branch _ (reject_timeout-Triple o) (
      Triple-modify _ (λ g l h. record {
        timeout_low = (accepted (strtol o.optarg).value (is_bad_number o) h.1).0;
        timeout_high = (accepted (strtol o.optarg).value (is_bad_number o) h.1).1;
        start = h.0.start;
        method = h.0.method;
        pid = h.0.pid;
      }))

  pub reject_pid-Triple :
      {I : Claim} {J : Unit {0} → Claim} (o : ParsedOption) → Triple IsExit I (reject_pid os cl o) J
  unfolding reject_pid
  reject_pid-Triple o =
      Triple-bind (Triple-Silent (inr refl) (print_buffered-Silent os cl.getopt_error)) λ _.
        Triple-bind (Triple-Silent (inr refl) (Silent-error os _ _)) λ _. Triple-exit 1 (inr refl)

  handle_pid-Triple : (o : ParsedOption) → Triple IsExit Tested (handle_pid os cl o) (λ _. Tested)
  unfolding handle_pid
  handle_pid-Triple o =
      Triple-bind_modify (λ g l. IsTested (record g { external_pid = pos 0 })) _ _
        (λ g l h. record {
          timeout_low = h.timeout_low;
          timeout_high = h.timeout_high;
          start = h.start;
          method = h.method;
          pid = omega arith;
        })
        (Triple-when _ (reject_pid-Triple o) (λ g l h e. record {
          timeout_low = h.timeout_low;
          timeout_high = h.timeout_high;
          start = h.start;
          method = h.method;
          pid = positive g.external_pid (is_bad_number o) e;
        }))

  pub reject_start-Triple :
      {I : Claim} {J : Unit {0} → Claim} (o : ParsedOption)
      → Triple IsExit I (reject_start_monitor_after os cl o) J
  unfolding reject_start_monitor_after
  reject_start-Triple o =
      Triple-bind (Triple-Silent (inr refl) (print_buffered-Silent os cl.getopt_error)) λ _.
        Triple-bind (Triple-Silent (inr refl) (Silent-error os _ _)) λ _. Triple-exit 1 (inr refl)

  handle_start-Triple :
      (o : ParsedOption) → Triple IsExit Tested (handle_start_monitor_after os cl o) (λ _. Tested)
  unfolding handle_start_monitor_after
  handle_start-Triple o =
      Triple-bind_modify (λ g l. IsTested (record g { start_monitor_after_ms = pos 0 })) _ _
        (λ g l h. record {
          timeout_low = h.timeout_low;
          timeout_high = h.timeout_high;
          start = omega arith;
          method = h.method;
          pid = h.pid;
        })
        (Triple-when _ (reject_start-Triple o) (λ g l h e. record {
          timeout_low = h.timeout_low;
          timeout_high = h.timeout_high;
          start = ≤ℤ_of_ltb_ℤ g.start_monitor_after_ms (pos 0) (||_false _ (is_bad_number o) e).0;
          method = h.method;
          pid = h.pid;
        }))

  pub reject_option-Triple :
      {I : Claim} {J : Unit {0} → Claim} → Triple IsExit I (reject_option os cl) J
  unfolding reject_option
  reject_option-Triple =
      Triple-bind (Triple-Silent (inr refl) (print_buffered-Silent os cl.getopt_error)) λ _.
        Triple-bind (Triple-Silent (inr refl) (Silent-stderr _ _)) λ _. Triple-exit 1 (inr refl)

module _ (os : Os) (cl : CommandLine)
    (allocates : (h : List Event) (n : ℕ) → os.allocates h n ≡ true) where
  with_method :
      (m : PauseMethod) (g : Globals)
      → IsTested g
      → m ≢ unknown
      → IsTested (record g { pause_method = m })
  with_method m g h known = record {
    timeout_low = h.timeout_low;
    timeout_high = h.timeout_high;
    start = h.start;
    method = known;
    pid = h.pid;
  }

  handle_option-Triple :
      (o : ParsedOption)
      → IsLongMethod o
      → Triple IsExit Tested (handle_option os cl o) (λ _. Tested)
  unfolding handle_option
  handle_option-Triple o long =
      Triple-branch _ (Triple-pre (λ g l h. h.0) (handle_timeout-Triple os cl o)) (
        Triple-branch _ (Triple-pre (λ g l h. h.0.0) (handle_pid-Triple os cl o)) (
          Triple-branch _ (Triple-pre (λ g l h. h.0.0.0) (handle_start-Triple os cl o)) (
            Triple-branch _
              (Triple-fact (λ g l h. long ((==_iff _ _).0 h.1))
                (λ k.
                  Triple-pre (λ g l h. h.0.0.0.0)
                    (handle_method-Triple os cl allocates o
                      (λ m g l h known. with_method m g h known) k)))
              (Triple-pre (λ g l h. h.0.0.0.0)
                (Triple-branch _
                  (Triple-bind (Triple-Silent (inr refl) (print_version-Silent cl.version))
                    λ _. Triple-exit 0 (inl refl))
                  (Triple-branch _
                    (Triple-modify _ (λ g l h. IsTested-flags g true g.debug g.quiet h.0.0))
                    (Triple-branch _
                      (Triple-modify _ (λ g l h. IsTested-flags g true true g.quiet h.0.0.0))
                      (Triple-branch _
                        (Triple-modify _
                          (λ g l h. IsTested-flags g g.verbose g.debug true h.0.0.0.0))
                        (Triple-branch _
                          (Triple-bind (Triple-Silent (inr refl) (print_usage-Silent cl.program))
                            λ _. Triple-exit 0 (inl refl))
                          (reject_option-Triple os cl))))))))))

  pub handle_options-Triple :
      (options : List ParsedOption)
      → ((o : ParsedOption) → Memᴰ o options → IsLongMethod o)
      → Triple IsExit Tested (handle_options os cl options) (λ _. Tested)
  unfolding handle_options
  handle_options-Triple [] long = Triple-pure tt (λ g l h. h)
  handle_options-Triple (o ∷ rest) long =
      Triple-bind (handle_option-Triple o (long o (Memᴰ.head refl)))
        λ _. handle_options-Triple rest (λ p m. long p (Memᴰ.tail m))
