-- ===== src/System/Running.antt =====
-- Triples for programs with loops that may go on for ever: `K` is what holds where the program is still
-- running when its rounds are used up.
use runwhenidle.Prelude.{ℕ, ◌≡◌, refl, Bool, true, false, List}
use runwhenidle.Prelude.Int.{ℤ}
use runwhenidle.System.Types.{Globals, State}
use runwhenidle.System.Effects.{
  Outcome, value, exited, crashed, out_of_fuel, Prog, Round, again, done, continue, ◌>>=◌, gets,
  choose, branch, forever,
}
use runwhenidle.System.Trace.{signals}
use runwhenidle.System.Triples.{Claim, Holds, Triple}
use runwhenidle.System.Loops.{LoopPost, LoopWp, Post-LoopPost, forever-keep}

pub record Runs {A : Type 0} (K : Claim) (E : ℕ → Type 0) (I : Claim) (m : Prog A) (J : A → Claim)
    : Type 0 where
  pub run :
      (s : State) → Holds I s → LoopWp m (λ (_ : Unit {0}) t. Holds K t) (λ a t. Holds (J a) t) E s

abbrev Still : Claim → Unit {0} → State → Type 0
Still K _ t = Holds K t

choose-Runs :
    {A : Type 0} (K : Claim) (E : ℕ → Type 0) (b : Bool) (m n : Prog A) (L : A → Claim) (s : State)
    → (b ≡ true → LoopWp m (Still K) (λ a t. Holds (L a) t) E s)
    → (b ≡ false → LoopWp n (Still K) (λ a t. Holds (L a) t) E s)
    → LoopWp (choose b m n) (Still K) (λ a t. Holds (L a) t) E s
choose-Runs K E true m n L s f g = f refl
choose-Runs K E false m n L s f g = g refl

module _ {K : Claim} {E : ℕ → Type 0} where
  pub Runs-Triple :
      {A : Type 0} {I : Claim} {m : Prog A} {J : A → Claim} → Triple E I m J → Runs K E I m J
  Runs-Triple {m} t = record {
    run = λ s h. record { holds = Post-LoopPost (Still K) _ E (m s).0 (m s).1 (t.run s h).holds };
  }

  pub Runs-pre :
      {A : Type 0} {I I' : Claim} {m : Prog A} {J : A → Claim}
      → ((g : Globals) (l : List (ℤ × ℕ)) → I g l → I' g l)
      → Runs K E I' m J
      → Runs K E I m J
  Runs-pre f t = record { run = λ s h. t.run s (f _ _ h) }

  chain :
      {A B : Type 0} (P : A → Claim) (L : B → Claim) (f : A → Prog B) (o : Outcome A) (s : State)
      → LoopPost (Still K) (λ a t. Holds (P a) t) E o s
      → ((a : A) → Runs K E (P a) (f a) L)
      → LoopPost (Still K) (λ b t. Holds (L b) t) E (continue o f s).0 (continue o f s).1
  chain P L f (value a) s h k = ((k a).run s h).holds
  chain P L f (exited c) s h k = h
  chain P L f crashed s h k = absurd h
  chain P L f out_of_fuel s h k = h

  pub Runs-bind :
      {A B : Type 0} {I : Claim} {m : Prog A} {J : A → Claim} {f : A → Prog B} {L : B → Claim}
      → Runs K E I m J
      → ((a : A) → Runs K E (J a) (f a) L)
      → Runs K E I (m >>= f) L
  unfolding ◌>>=◌
  Runs-bind {m} {J} {f} {L} t k = record {
    run = λ s h. record { holds = chain J L f (m s).0 (m s).1 (t.run s h).holds k };
  }

  pub Runs-bind_gets :
      {A B : Type 0} {I : Claim} (r : Globals → A) {f : A → Prog B} {L : B → Claim}
      → ((a : A) → Runs K E (λ g l. I g l × (r g ≡ a)) (f a) L)
      → Runs K E I (gets (λ s. r s.globals) >>= f) L
  unfolding ◌>>=◌ gets
  Runs-bind_gets r k = record {
    run = λ s h. record { holds = ((k (r s.globals)).run s (h, refl)).holds };
  }

  pub Runs-branch :
      {A : Type 0} {I : Claim} (test : Globals → Bool) {m n : Prog A} {J : A → Claim}
      → Runs K E (λ g l. I g l × (test g ≡ true)) m J
      → Runs K E (λ g l. I g l × (test g ≡ false)) n J
      → Runs K E I (branch (λ s. test s.globals) m n) J
  unfolding branch
  Runs-branch test {m} {n} {J} a b = record {
    run = λ s h. record {
      holds =
          (choose-Runs K E (test s.globals) m n J s (λ e. a.run s (h, e))
            (λ e. b.run s (h, e))).holds;
    };
  }

  pub Runs-fact :
      {A : Type 0} {I : Claim} {m : Prog A} {J : A → Claim} {X : Type 0}
      → ((g : Globals) (l : List (ℤ × ℕ)) → I g l → X)
      → (X → Runs K E I m J)
      → Runs K E I m J
  Runs-fact f k = record { run = λ s h. (k (f _ _ h)).run s h }

forget :
    {S R : Type 0} (I : S → State → Type 0) (J : R → State → Type 0) (K : State → Type 0)
    (E : ℕ → Type 0) (o : Outcome R) (s : State)
    → LoopPost I J E o s
    → ((x : S) (t : State) → I x t → K t)
    → LoopPost (λ (_ : Unit {0}) t. K t) J E o s
forget I L K E (value r) s h kept = h
forget I L K E (exited c) s h kept = h
forget I L K E crashed s h kept = h
forget I L K E out_of_fuel s h kept = (tt, kept h.0 s h.1)

module _ {S R : Type 0} {I : S → State → Type 0} {J : R → State → Type 0} where
  -- what still holds, without the variables of the loop
  pub LoopWp-still :
      (K : State → Type 0) {E : ℕ → Type 0} {m : Prog R} {s : State}
      → LoopWp m I J E s
      → ((x : S) (t : State) → I x t → K t)
      → LoopWp m (λ (_ : Unit {0}) t. K t) J E s
  LoopWp-still K {E} {m} {s} w kept = record { holds = forget I J K E (m s).0 (m s).1 w.holds kept }

module _ {S R : Type 0} (K : Claim) (E : ℕ → Type 0) (I : S → Claim) (J : Round S R → Claim) where
  pub Runs-forever :
      (body : S → Prog (Round S R))
      → ((x : S) → Triple E (I x) (body x) J)
      → ((x : S) (s : State) → Holds (J (again x)) s → Holds (I x) s)
      → ((x : S) (g : Globals) (l : List (ℤ × ℕ)) → I x g l → K g l)
      → (rounds : ℕ) (x : S) → Runs K E (I x) (forever rounds body x) (λ r. J (done r))
  Runs-forever body round step kept rounds x = record {
    run = λ s h.
        LoopWp-still (Holds K) (forever-keep I J round step rounds x s h)
          (λ y t k. kept y t.globals (signals t.trace) k);
  }
