-- ===== src/System/Triples.antt =====
-- Triples over the global variables and the signals delivered so far. `E` is what holds of the code
-- with which the program may end in between.
use runwhenidle.Prelude.{ℕ, ◌≡◌, refl, sym, subst, Bool, true, false, List, ◌∷◌}
use runwhenidle.Prelude.Int.{ℤ}
use runwhenidle.System.Types.{Event, Globals, State}
use runwhenidle.System.Effects.{Prog, ◌>>=◌, pure, exit, gets, ask, emit, modify, when, branch}
use runwhenidle.System.Hoare.{
  Wp, Wp-bind, Wp-mono, Wp-pure, Wp-exit, Wp-ask, Wp-emit, Wp-modify, Wp-branch, Wp-bind_gets,
}
use runwhenidle.System.Trace.{signals, Silent}

-- What is said of a state.
abbrev pub Claim : Type 1
Claim = Globals → List (ℤ × ℕ) → Type 0

abbrev pub Holds : Claim → State → Type 0
Holds I s = I s.globals (signals s.trace)

pub record Triple {A : Type 0} (E : ℕ → Type 0) (I : Claim) (m : Prog A) (J : A → Claim)
    : Type 0 where
  pub run : (s : State) → Holds I s → Wp m (λ a t. Holds (J a) t) (λ c t. E c) s

module _ {E : ℕ → Type 0} (fails : E 1) where
  pub Triple-Silent : {A : Type 0} {I : Claim} {m : Prog A} → Silent m → Triple E I m (λ _. I)
  Triple-Silent {I} q = record {
    run = λ s h.
        Wp-mono (q.at s)
          (λ a t k.
            subst (λ l. I t.globals l) (sym k.1) (subst (λ g. I g (signals s.trace)) (sym k.0) h))
          (λ c t k. subst E (sym k.1.0) fails);
  }

module _ {E : ℕ → Type 0} where
  pub Triple-pre :
      {A : Type 0} {I I' : Claim} {m : Prog A} {J : A → Claim}
      → ((g : Globals) (l : List (ℤ × ℕ)) → I g l → I' g l)
      → Triple E I' m J
      → Triple E I m J
  Triple-pre f t = record { run = λ s h. t.run s (f s.globals (signals s.trace) h) }

  pub Triple-post :
      {A : Type 0} {I : Claim} {m : Prog A} {J J' : A → Claim}
      → Triple E I m J
      → ((a : A) (g : Globals) (l : List (ℤ × ℕ)) → J a g l → J' a g l)
      → Triple E I m J'
  Triple-post t f = record {
    run = λ s h. Wp-mono (t.run s h) (λ a u k. f a u.globals (signals u.trace) k) (λ c u k. k);
  }

  pub Triple-pure :
      {A : Type 0} {I : Claim} {J : A → Claim} (a : A)
      → ((g : Globals) (l : List (ℤ × ℕ)) → I g l → J a g l)
      → Triple E I (pure a) J
  Triple-pure a f = record { run = λ s h. Wp-pure a (f s.globals (signals s.trace) h) }

  pub Triple-exit : {A : Type 0} {I : Claim} {J : A → Claim} (c : ℕ) → E c → Triple E I (exit c) J
  Triple-exit c e = record { run = λ s h. Wp-exit c e }

  pub Triple-modify :
      {I : Claim} {J : Unit {0} → Claim} (u : Globals → Globals)
      → ((g : Globals) (l : List (ℤ × ℕ)) → I g l → J tt (u g) l)
      → Triple E I (modify u) J
  Triple-modify u f = record { run = λ s h. Wp-modify u (f s.globals (signals s.trace) h) }

  pub Triple-bind :
      {A B : Type 0} {I : Claim} {m : Prog A} {J : A → Claim} {f : A → Prog B} {K : B → Claim}
      → Triple E I m J
      → ((a : A) → Triple E (J a) (f a) K)
      → Triple E I (m >>= f) K
  Triple-bind t k = record {
    run = λ s h. Wp-bind (t.run s h) (λ a u q. (k a).run u q) (λ c u q. q);
  }

  -- reading a variable
  pub Triple-bind_gets :
      {A B : Type 0} {I : Claim} (r : Globals → A) {f : A → Prog B} {K : B → Claim}
      → ((a : A) → Triple E (λ g l. I g l × (r g ≡ a)) (f a) K)
      → Triple E I (gets (λ s. r s.globals) >>= f) K
  Triple-bind_gets r k = record {
    run = λ s h. Wp-bind_gets _ _ ((k (r s.globals)).run s (h, refl));
  }

  pub Triple-branch :
      {A : Type 0} {I : Claim} (test : Globals → Bool) {m n : Prog A} {J : A → Claim}
      → Triple E (λ g l. I g l × (test g ≡ true)) m J
      → Triple E (λ g l. I g l × (test g ≡ false)) n J
      → Triple E I (branch (λ s. test s.globals) m n) J
  Triple-branch test a b = record {
    run = λ s h. Wp-branch _ _ _ (λ e. a.run s (h, e)) (λ e. b.run s (h, e));
  }

  pub Triple-when :
      {I : Claim} (test : Globals → Bool) {m : Prog (Unit {0})} {J : Unit {0} → Claim}
      → Triple E (λ g l. I g l × (test g ≡ true)) m J
      → ((g : Globals) (l : List (ℤ × ℕ)) → I g l → test g ≡ false → J tt g l)
      → Triple E I (when (λ s. test s.globals) m) J
  unfolding when
  Triple-when test a f = Triple-branch test a (Triple-pure tt (λ g l h. f g l h.0 h.1))

  -- what the precondition says of values that are no variables
  pub Triple-fact :
      {A : Type 0} {I : Claim} {m : Prog A} {J : A → Claim} {X : Type 0}
      → ((g : Globals) (l : List (ℤ × ℕ)) → I g l → X)
      → (X → Triple E I m J)
      → Triple E I m J
  Triple-fact f k = record { run = λ s h. (k (f s.globals (signals s.trace) h)).run s h }

  -- an assignment
  pub Triple-bind_modify :
      {B : Type 0} {I : Claim} (I' : Claim) (u : Globals → Globals) (f : Unit {0} → Prog B)
      {K : B → Claim}
      → ((g : Globals) (l : List (ℤ × ℕ)) → I g l → I' (u g) l)
      → Triple E I' (f tt) K
      → Triple E I (modify u >>= f) K
  Triple-bind_modify I' u f k t = Triple-bind {J = λ _. I'} (Triple-modify u k) (λ _. t)

  -- the value that a variable has before
  pub Triple-value :
      {A X : Type 0} {I : Claim} {m : Prog A} {J : A → Claim} (r : Globals → X)
      → ((x : X) → Triple E (λ g l. I g l × (r g ≡ x)) m J)
      → Triple E I m J
  Triple-value r k = record { run = λ s h. (k (r s.globals)).run s (h, refl) }

  -- a call of the kernel that sends no signal, with where its answer comes from
  pub Triple-ask :
      {A : Type 0} {I : Claim} (answer : List Event → A) (event : A → Event)
      → ((a : A) (tr : List Event) → signals (event a ∷ tr) ≡ signals tr)
      → Triple E I (ask answer event) (λ a g l. I g l × ((h : List Event) × (a ≡ answer h)))
  Triple-ask {I} answer event quiet = record {
    run = λ s h.
        Wp-ask answer event (subst (λ l. I s.globals l) (sym (quiet _ s.trace)) h, (s.trace, refl));
  }

  pub Triple-emit :
      {I : Claim} (e : Event)
      → ((tr : List Event) → signals (e ∷ tr) ≡ signals tr)
      → Triple E I (emit e) (λ _. I)
  Triple-emit {I} e quiet = record {
    run = λ s h. Wp-emit e (subst (λ l. I s.globals l) (sym (quiet s.trace)) h);
  }
