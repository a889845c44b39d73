-- ===== src/Arguments/Options/Method.antt =====
-- The option --pause-method, whose argument is made upper case in place (arguments_parsing.c).
use runwhenidle.Prelude.{
  ℕ, zero, suc, ◌++◌, ◌↔◌, subst, Option, none, some, ltb, Bool-cases, ◌+◌, ◌≤◌, ◌<◌, ◌≡◌, ◌≢◌,
  refl, sym, ◌∙◌, ap, ◌⊎◌, inl, inr, Bool, true, false, List, [], ◌∷◌, length, arith,
}
use runwhenidle.Prelude.Int.{ℤ}
use mathlib.Core.Bool.{false≢true}
use runwhenidle.System.{
  Os, State, Globals, PauseMethod, unknown, Event, Post, ◌>>=◌, ask, branch, crash, crashed, Claim,
  Triple-ask, Triple, Triple-Silent, Triple-exit, Triple-bind, Triple-bind_modify, Triple-branch,
  Triple-when, Triple-fact, Silent, Silent-pure, Silent-when, Silent-bind, Silent-error,
}
use runwhenidle.Arguments.Usage.{print_buffered-Silent}
use runwhenidle.Arguments.Options.{
  ParsedOption, CommandLine, pause_methods, is_unknown, sizeof_method, toupper, upper_loop,
  choose_method, print_methods, reject_method, handle_pause_method, handle_option,
}

abbrev pub IsExit : ℕ → Type 0
IsExit c = (c ≡ 0) ⊎ (c ≡ 1)

known_of_test : (m : PauseMethod) → is_unknown m ≡ false → m ≢ unknown
known_of_test m test e = false≢true (sym test ∙ ap is_unknown e)

-- Whether the loop stays within the array.
upper_loop-some : (n : ℕ) (s : List ℕ) → n ≤ length s → (r : List ℕ) × (upper_loop n s ≡ some r)
unfolding upper_loop
upper_loop-some zero s h = (s, refl)
upper_loop-some (suc n) [] h = absurd (omega (arith, h))
upper_loop-some (suc n) (c ∷ rest) h =
    let (r, e) = upper_loop-some n rest (omega (arith, h)) in (toupper c ∷ r, rw e refl)

upper_loop-none : (n : ℕ) (s : List ℕ) → length s < n → upper_loop n s ≡ none
unfolding upper_loop
upper_loop-none zero s h = absurd (omega (arith, h))
upper_loop-none (suc n) [] h = refl
upper_loop-none (suc n) (c ∷ rest) h = rw (upper_loop-none n rest (omega (arith, h))) refl

length-terminated : (s : List ℕ) → length (s ++ 0 ∷ []) ≡ length s + 1
length-terminated [] = refl
length-terminated (c ∷ rest) = omega (arith, length-terminated rest)

module _ (os : Os) (cl : CommandLine) where
  print_methods-Silent : (ms : List PauseMethod) → Silent (print_methods os cl ms)
  unfolding print_methods
  print_methods-Silent [] = Silent-pure tt
  print_methods-Silent (m ∷ rest) =
      Silent-bind _ _ (Silent-error os _ _)
        λ _. Silent-bind _ _ (Silent-when _ _ (Silent-error os _ _)) λ _. print_methods-Silent rest

  pub reject_method-Triple :
      {I : Claim} {J : Unit {0} → Claim} (o : ParsedOption)
      → Triple IsExit I (reject_method os cl o) J
  unfolding reject_method
  reject_method-Triple o =
      Triple-bind (Triple-Silent (inr refl) (print_buffered-Silent os cl.getopt_error)) λ _.
        Triple-bind (Triple-Silent (inr refl) (Silent-error os _ _)) λ _.
          Triple-bind (Triple-Silent (inr refl) (print_methods-Silent pause_methods)) λ _.
            Triple-bind (Triple-Silent (inr refl) (Silent-error os _ _))
              λ _. Triple-exit 1 (inr refl)

  choose_method-Triple :
      {I J : Claim} (o : ParsedOption) (method : Option (List ℕ))
      → ((m : PauseMethod) (g : Globals) (l : List (ℤ × ℕ))
          → I g l
          → m ≢ unknown
          → J (record g { pause_method = m }) l)
      → (method ≢ none)
      → Triple IsExit I (choose_method os cl o method) (λ _. J)
  unfolding choose_method
  choose_method-Triple o none f given = absurd (given refl)
  choose_method-Triple {J} o (some method) f given =
      Triple-bind_modify (λ g l. is_unknown g.pause_method ≡ false → J g l) _ _
        (λ g l h e. f _ g l h (known_of_test _ e))
        (Triple-when _ (reject_method-Triple o) (λ g l h e. h e))

module _ (os : Os) (cl : CommandLine)
    (allocates : (h : List Event) (n : ℕ) → os.allocates h n ≡ true) where
  -- The option changes no more than the method, and to one that is known.
  pub handle_method-Triple :
      {I J : Claim} (o : ParsedOption)
      → ((m : PauseMethod) (g : Globals) (l : List (ℤ × ℕ))
          → I g l
          → m ≢ unknown
          → J (record g { pause_method = m }) l)
      → 7 ≤ length o.optarg
      → Triple IsExit I (handle_pause_method os cl o) (λ _. J)
  unfolding handle_pause_method
  handle_method-Triple {I} o f long = Triple-bind (Triple-ask _ _ (λ a tr. refl)) λ allocated.
      Triple-fact (λ g l h. h.1.1 ∙ allocates h.1.0 (length o.optarg + 1))
        λ given.
          Triple-branch _
            (choose_method-Triple os cl o _ (λ m g l h known. f m g l h.0.0 known) in_array)
            (Triple-fact {X = ⊥} (λ g l h. false≢true (sym h.1 ∙ given)) (λ no. absurd no))
    where
      in_array : upper_loop sizeof_method (o.optarg ++ 0 ∷ []) ≢ none
      in_array e =
          let (r, k) =
            upper_loop-some sizeof_method (o.optarg ++ 0 ∷ [])
              (subst (λ n. 8 ≤ n) (sym (length-terminated o.optarg)) (omega (arith, long))) in
          cc (e, k)

overruns :
    (os : Os) (cl : CommandLine) (o : ParsedOption) (s : State)
    → length o.optarg < 7
    → (handle_pause_method os cl o s).0 ≡ crashed
unfolding handle_pause_method choose_method ◌>>=◌ ask branch crash
overruns os cl o s short =
    let e : upper_loop sizeof_method (o.optarg ++ 0 ∷ []) ≡ none =
      upper_loop-none sizeof_method (o.optarg ++ 0 ∷ [])
        (subst (λ n. n < 8) (sym (length-terminated o.optarg)) (omega (arith, short))) in
    elim (Bool-cases (os.allocates s.trace (length o.optarg + 1))) [
      | inl given ↦ rw (given, e) refl
      | inr none_ ↦ rw none_ refl
    ]

stays :
    (os : Os) (cl : CommandLine) (o : ParsedOption) (s : State)
    → ((h : List Event) (n : ℕ) → os.allocates h n ≡ true)
    → 7 ≤ length o.optarg
    → (handle_pause_method os cl o s).0 ≢ crashed
stays os cl o s allocates long e =
    subst (λ r. Post (λ _ t. Unit {0}) (λ c t. IsExit c) r (handle_pause_method os cl o s).1) e
      ((handle_method-Triple os cl allocates {I = λ g l. Unit {0}} {J = λ g l. Unit {0}} o
          (λ m g l h known. tt) long).run
        s tt).holds

-- Where memory can be had: a --pause-method argument of fewer than 7 bytes makes the loop that
-- changes it to upper case run past the copy, whether it names a method or not, and one of 7 bytes
-- or more does not.
pub short_method_crashes :
    (os : Os) (cl : CommandLine) (name : List ℕ) (errno_set : Bool) (s : State)
    → ((h : List Event) (n : ℕ) → os.allocates h n ≡ true)
    → ((handle_option os cl (record { option = b'm'; optarg = name; errno_set = errno_set }) s).0
        ≡ crashed)
      ↔ (length name < 7)
unfolding handle_option branch
short_method_crashes os cl name errno_set s allocates = (
  λ e. elim (Bool-cases (ltb (length name) 7)) [
    | inl k ↦ ground arith
    | inr k ↦ absurd (stays os cl _ s allocates (ground arith) e)
  ],
  λ short. overruns os cl _ s short,
)
