-- ===== src/System/Hoare.antt =====
-- Postconditions of programs: `Wp m Q E s` says that from `s` the program `m` returns with `Q`, or
-- calls `exit` with `E`; it neither crashes nor runs out of fuel.
use runwhenidle.Prelude.{ℕ, ◌≡◌, refl, sym, subst, Bool, true, false, List, ◌∷◌}
use runwhenidle.System.Types.{Event, State, Globals}
use runwhenidle.System.Effects.{
  Outcome, value, exited, crashed, out_of_fuel, Prog, continue, ◌>>=◌, pure, exit, gets, lift,
  modify, emit, ask, choose, when, branch,
}

module _ {A : Type 0} where
  abbrev pub Post : (A → State → Type 0) → (ℕ → State → Type 0) → Outcome A → State → Type 0
  Post Q E (value a) s = Q a s
  Post Q E (exited c) s = E c s
  Post Q E crashed s = ⊥
  Post Q E out_of_fuel s = ⊥

  pub record Wp (m : Prog A) (Q : A → State → Type 0) (E : ℕ → State → Type 0) (s : State)
      : Type 0 where
    pub holds : Post Q E (m s).0 (m s).1

module _ {A : Type 0} where
  Post-mono :
      {Q R : A → State → Type 0} {E F : ℕ → State → Type 0} (o : Outcome A) (s : State)
      → Post Q E o s
      → ((a : A) (t : State) → Q a t → R a t)
      → ((c : ℕ) (t : State) → E c t → F c t)
      → Post R F o s
  Post-mono (value a) s h f g = f a s h
  Post-mono (exited c) s h f g = g c s h
  Post-mono crashed s h f g = absurd h
  Post-mono out_of_fuel s h f g = absurd h

  pub Wp-mono :
      {m : Prog A} {Q R : A → State → Type 0} {E F : ℕ → State → Type 0} {s : State}
      → Wp m Q E s
      → ((a : A) (t : State) → Q a t → R a t)
      → ((c : ℕ) (t : State) → E c t → F c t)
      → Wp m R F s
  Wp-mono {m} {s} w f g = record { holds = Post-mono (m s).0 (m s).1 w.holds f g }

  Post-result :
      (Q : A → State → Type 0) (E : ℕ → State → Type 0) (o : Outcome A) (s : State)
      → Post Q E o s
      → Post (λ a t. (o ≡ value a) × Q a t) E o s
  Post-result Q E (value a) s h = (refl, h)
  Post-result Q E (exited c) s h = h
  Post-result Q E crashed s h = h
  Post-result Q E out_of_fuel s h = h

  -- the postcondition may mention that it is `m` which returned the value
  pub Wp-result :
      {m : Prog A} {Q : A → State → Type 0} {E : ℕ → State → Type 0} {s : State}
      → Wp m Q E s
      → Wp m (λ a t. ((m s).0 ≡ value a) × Q a t) E s
  Wp-result {m} {Q} {E} {s} w = record { holds = Post-result Q E (m s).0 (m s).1 w.holds }

module _ {A B : Type 0} where
  Post-continue :
      {Q : A → State → Type 0} {R : B → State → Type 0} {E F : ℕ → State → Type 0} (f : A → Prog B)
      (o : Outcome A) (s : State)
      → Post Q E o s
      → ((a : A) (t : State) → Q a t → Wp (f a) R F t)
      → ((c : ℕ) (t : State) → E c t → F c t)
      → Post R F (continue o f s).0 (continue o f s).1
  Post-continue f (value a) s h k g = (k a s h).holds
  Post-continue f (exited c) s h k g = g c s h
  Post-continue f crashed s h k g = absurd h
  Post-continue f out_of_fuel s h k g = absurd h

  -- the rule for `m >>= f`, from what is known of `m`
  pub Wp-bind :
      {m : Prog A} {f : A → Prog B} {Q : A → State → Type 0} {R : B → State → Type 0}
      {E F : ℕ → State → Type 0} {s : State}
      → Wp m Q E s
      → ((a : A) (t : State) → Q a t → Wp (f a) R F t)
      → ((c : ℕ) (t : State) → E c t → F c t)
      → Wp (m >>= f) R F s
  unfolding ◌>>=◌
  Wp-bind {m} {f} {s} w k g = record { holds = Post-continue f (m s).0 (m s).1 w.holds k g }

-- The rules for the primitives.
module _ {A : Type 0} {Q : A → State → Type 0} {E : ℕ → State → Type 0} {s : State} where
  pub Wp-pure : (a : A) → Q a s → Wp (pure a) Q E s
  unfolding pure
  Wp-pure a h = record { holds = h }

  pub Wp-exit : (c : ℕ) → E c s → Wp (exit c) Q E s
  unfolding exit
  Wp-exit c h = record { holds = h }

  pub Wp-gets : (f : State → A) → Q (f s) s → Wp (gets f) Q E s
  unfolding gets
  Wp-gets f h = record { holds = h }

  pub Wp-ask :
      (answer : List Event → A) (event : A → Event)
      → Q (answer s.trace) (record s { trace = event (answer s.trace) ∷ s.trace })
      → Wp (ask answer event) Q E s
  unfolding ask
  Wp-ask answer event h = record { holds = h }

  pub Wp-lift : (o : Outcome A) (a : A) → o ≡ value a → Q a s → Wp (lift o) Q E s
  unfolding lift
  Wp-lift o a e h = subst (λ r. Wp (λ t. (r, t)) Q E s) (sym e) (record { holds = h })

  Wp-choose :
      (b : Bool) (m n : Prog A)
      → (b ≡ true → Wp m Q E s)
      → (b ≡ false → Wp n Q E s)
      → Wp (choose b m n) Q E s
  Wp-choose true m n f g = f refl
  Wp-choose false m n f g = g refl

  pub Wp-branch :
      (test : State → Bool) (m n : Prog A)
      → (test s ≡ true → Wp m Q E s)
      → (test s ≡ false → Wp n Q E s)
      → Wp (branch test m n) Q E s
  unfolding branch
  Wp-branch test m n f g = record { holds = (Wp-choose (test s) m n f g).holds }

module _ {Q : Unit {0} → State → Type 0} {E : ℕ → State → Type 0} {s : State} where
  pub Wp-modify :
      (f : Globals → Globals) → Q tt (record s { globals = f s.globals }) → Wp (modify f) Q E s
  unfolding modify
  Wp-modify f h = record { holds = h }

  pub Wp-emit : (e : Event) → Q tt (record s { trace = e ∷ s.trace }) → Wp (emit e) Q E s
  unfolding emit
  Wp-emit e h = record { holds = h }

  pub Wp-when :
      (test : State → Bool) (m : Prog (Unit {0}))
      → (test s ≡ true → Wp m Q E s)
      → (test s ≡ false → Q tt s)
      → Wp (when test m) Q E s
  unfolding when
  Wp-when test m f g = Wp-branch test m (pure tt) f (λ e. Wp-pure tt (g e))

-- reading a variable, and going on with its value
pub Wp-bind_gets :
    {A B : Type 0} (g : State → A) (f : A → Prog B) {R : B → State → Type 0}
    {F : ℕ → State → Type 0} {s : State}
    → Wp (f (g s)) R F s
    → Wp (gets g >>= f) R F s
unfolding ◌>>=◌ gets
Wp-bind_gets g f w = record { holds = w.holds }

-- a call of the kernel, and going on with its answer
pub Wp-bind_ask :
    {A B : Type 0} (answer : List Event → A) (event : A → Event) (f : A → Prog B)
    {R : B → State → Type 0} {F : ℕ → State → Type 0} {s : State}
    → Wp (f (answer s.trace)) R F (record s { trace = event (answer s.trace) ∷ s.trace })
    → Wp (ask answer event >>= f) R F s
unfolding ◌>>=◌ ask
Wp-bind_ask answer event f w = record { holds = w.holds }

pub Wp-bind_emit :
    {B : Type 0} (e : Event) (f : Unit {0} → Prog B) {R : B → State → Type 0}
    {F : ℕ → State → Type 0} {s : State}
    → Wp (f tt) R F (record s { trace = e ∷ s.trace })
    → Wp (emit e >>= f) R F s
unfolding ◌>>=◌ emit
Wp-bind_emit e f w = record { holds = w.holds }

-- an assignment, and going on from the state after it
pub Wp-bind_modify :
    {B : Type 0} (g : Globals → Globals) (f : Unit {0} → Prog B) {R : B → State → Type 0}
    {F : ℕ → State → Type 0} {s : State}
    → Wp (f tt) R F (record s { globals = g s.globals })
    → Wp (modify g >>= f) R F s
unfolding ◌>>=◌ modify
Wp-bind_modify g f w = record { holds = w.holds }

-- Two of the same run.
module _ {A : Type 0} (Q R : A → State → Type 0) (E F : ℕ → State → Type 0) where
  Post-and :
      (o : Outcome A) (s : State) → Post Q E o s → Post R F o s → Post (λ a t. Q a t × R a t) E o s
  Post-and (value a) s h k = (h, k)
  Post-and (exited c) s h k = h
  Post-and crashed s h k = h
  Post-and out_of_fuel s h k = h

  pub Wp-and : {m : Prog A} {s : State} → Wp m Q E s → Wp m R F s → Wp m (λ a t. Q a t × R a t) E s
  Wp-and {m} {s} h k = record { holds = Post-and (m s).0 (m s).1 h.holds k.holds }
