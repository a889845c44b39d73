-- ===== src/System/Crashing.antt =====
-- Triples of programs that may crash, with what is known where they do.
use runwhenidle.Prelude.{ℕ, ◌≡◌, subst, refl, Bool, true, false, List}
use runwhenidle.Prelude.Int.{ℤ}
use runwhenidle.System.Trace.{signals}
use runwhenidle.System.Types.{Globals, State}
use runwhenidle.System.Effects.{
  Outcome, value, exited, crashed, out_of_fuel, Prog, Round, again, continue, ◌>>=◌, crash, choose,
  branch,
}
use runwhenidle.System.Hoare.{Post}
use runwhenidle.System.Triples.{Claim, Holds, Triple}
use runwhenidle.System.Loops.{Rounds, one, more}

module _ (C : Type 0) (E : ℕ → Type 0) where
  abbrev pub PartialPost : {A : Type 0} → (A → Claim) → Outcome A → State → Type 0
  PartialPost J (value a) s = Holds (J a) s
  PartialPost J (exited c) s = E c
  PartialPost J crashed s = C
  PartialPost J out_of_fuel s = ⊥

  -- `C` holds where the program crashes.
  pub record Partial {A : Type 0} (I : Claim) (m : Prog A) (J : A → Claim) : Type 0 where
    pub run : (s : State) → Holds I s → PartialPost J (m s).0 (m s).1

module _ (C : Type 0) (E : ℕ → Type 0) {A : Type 0} (J : A → Claim) where
  Post-Partial :
      (o : Outcome A) (s : State)
      → Post (λ a t. Holds (J a) t) (λ c t. E c) o s
      → PartialPost C E J o s
  Post-Partial (value a) s h = h
  Post-Partial (exited c) s h = h
  Post-Partial crashed s h = absurd h
  Post-Partial out_of_fuel s h = h

module _ {C : Type 0} {E : ℕ → Type 0} {A : Type 0} where
  pub Triple-Partial : {I : Claim} {m : Prog A} {J : A → Claim} → Triple E I m J → Partial C E I m J
  Triple-Partial {m} {J} t = record {
    run = λ s h. Post-Partial C E J (m s).0 (m s).1 (t.run s h).holds;
  }

  pub Partial-crash :
      {I : Claim} {J : A → Claim}
      → ((g : Globals) (l : List (ℤ × ℕ)) → I g l → C)
      → Partial C E I crash J
  unfolding crash
  Partial-crash f = record { run = λ s h. f s.globals (signals s.trace) h }

  pub Partial-pre :
      {I I' : Claim} {m : Prog A} {J : A → Claim}
      → ((g : Globals) (l : List (ℤ × ℕ)) → I g l → I' g l)
      → Partial C E I' m J
      → Partial C E I m J
  Partial-pre f t = record { run = λ s h. t.run s (f s.globals (signals s.trace) h) }

module _ (C : Type 0) (E : ℕ → Type 0) {A : Type 0} (J : A → Claim) where
  PartialPost-mono :
      {J' : A → Claim} (o : Outcome A) (s : State)
      → PartialPost C E J o s
      → ((a : A) (g : Globals) (l : List (ℤ × ℕ)) → J a g l → J' a g l)
      → PartialPost C E J' o s
  PartialPost-mono (value a) s h f = f a s.globals (signals s.trace) h
  PartialPost-mono (exited c) s h f = h
  PartialPost-mono crashed s h f = h
  PartialPost-mono out_of_fuel s h f = h

  PartialPost-choose :
      (b : Bool) (m n : Prog A) (s : State)
      → (b ≡ true → PartialPost C E J (m s).0 (m s).1)
      → (b ≡ false → PartialPost C E J (n s).0 (n s).1)
      → PartialPost C E J (choose b m n s).0 (choose b m n s).1
  PartialPost-choose true m n s f g = f refl
  PartialPost-choose false m n s f g = g refl

  PartialPost-continue :
      {B : Type 0} {K : B → Claim} (f : A → Prog B) (o : Outcome A) (s : State)
      → PartialPost C E J o s
      → ((a : A) → Partial C E (J a) (f a) K)
      → PartialPost C E K (continue o f s).0 (continue o f s).1
  PartialPost-continue f (value a) s h k = (k a).run s h
  PartialPost-continue f (exited c) s h k = h
  PartialPost-continue f crashed s h k = h
  PartialPost-continue f out_of_fuel s h k = h

module _ {C : Type 0} {E : ℕ → Type 0} {A : Type 0} where
  pub Partial-post :
      {I : Claim} {m : Prog A} {J J' : A → Claim}
      → Partial C E I m J
      → ((a : A) (g : Globals) (l : List (ℤ × ℕ)) → J a g l → J' a g l)
      → Partial C E I m J'
  Partial-post {m} {J} t f = record {
    run = λ s h. PartialPost-mono C E J (m s).0 (m s).1 (t.run s h) f;
  }

  pub Partial-branch :
      {I : Claim} (test : Globals → Bool) {m n : Prog A} {J : A → Claim}
      → Partial C E (λ g l. I g l × (test g ≡ true)) m J
      → Partial C E (λ g l. I g l × (test g ≡ false)) n J
      → Partial C E I (branch (λ s. test s.globals) m n) J
  unfolding branch
  Partial-branch test {m} {n} {J} a b = record {
    run = λ s h.
        PartialPost-choose C E J (test s.globals) m n s (λ e. a.run s (h, e)) (λ e. b.run s (h, e));
  }

  pub Partial-bind :
      {B : Type 0} {I : Claim} {m : Prog A} {J : A → Claim} {f : A → Prog B} {K : B → Claim}
      → Partial C E I m J
      → ((a : A) → Partial C E (J a) (f a) K)
      → Partial C E I (m >>= f) K
  unfolding ◌>>=◌
  Partial-bind {m} {J} {f} t k = record {
    run = λ s h. PartialPost-continue C E J f (m s).0 (m s).1 (t.run s h) k;
  }

module _ (E : ℕ → Type 0) {A : Type 0} (J : A → Claim) where
  PartialPost-Post :
      (o : Outcome A) (s : State)
      → PartialPost ⊥ E J o s
      → Post (λ a t. Holds (J a) t) (λ c t. E c) o s
  PartialPost-Post (value a) s h = h
  PartialPost-Post (exited c) s h = h
  PartialPost-Post crashed s h = h
  PartialPost-Post out_of_fuel s h = h

module _ {E : ℕ → Type 0} {A : Type 0} where
  -- where it cannot crash
  pub Partial-Triple : {I : Claim} {m : Prog A} {J : A → Claim} → Partial ⊥ E I m J → Triple E I m J
  Partial-Triple {m} {J} t = record {
    run = λ s h. record { holds = PartialPost-Post E J (m s).0 (m s).1 (t.run s h) };
  }

module _ {C : Type 0} {S R : Type 0} {body : S → Prog (Round S R)} {E : ℕ → Type 0} (I : S → Claim)
    (J : Round S R → Claim) (round : (x : S) → Partial C E (I x) (body x) J)
    (step : (x : S) (s : State) → Holds (J (again x)) s → Holds (I x) s) where
  -- A round that has crashed is followed by no other.
  pub Rounds-Partial :
      {x : S} {s : State} {y : S} {t : State}
      → Rounds body x s y t
      → Holds (I x) s
      → Holds (J (again y)) t
  Rounds-Partial {x} {s} (one e) h = subst (λ r. PartialPost C E J r.0 r.1) e ((round x).run s h)
  Rounds-Partial (more {y} {t} path e) h =
      subst (λ r. PartialPost C E J r.0 r.1) e ((round y).run t (step y t (Rounds-Partial path h)))
