-- ===== src/System/Loops.antt =====
-- Loops without a bound: what holds at the start of every round that is reached, and of what a loop
-- leaves.
use runwhenidle.Prelude.{ℕ, zero, suc, ◌≡◌, subst}
use runwhenidle.System.Types.{State}
use runwhenidle.System.Effects.{
  Outcome, value, exited, crashed, out_of_fuel, Prog, Round, again, done, continue, pure, ◌>>=◌,
  forever,
}
use runwhenidle.System.Hoare.{Post, Wp}
use runwhenidle.System.Triples.{Claim, Holds, Triple}

-- After one round or more the loop is about to start a round with `y` in `t`.
pub data Rounds {S R : Type 0} (body : S → Prog (Round S R)) (x : S) (s : State)
    : S → State → Type 0 where
  one : {y : S} {t : State} → body x s ≡ (value (again y), t) → Rounds body x s y t
  more :
      {y z : S} {t u : State}
      → Rounds body x s y t
      → body y t ≡ (value (again z), u)
      → Rounds body x s z u

module _ {S R : Type 0} where
  -- What holds of the outcome of a loop: `J` of what it returns, `E` of the code that it ends the
  -- program with, and `I` where it is still running. It does not crash.
  abbrev pub LoopPost :
      (I : S → State → Type 0) (J : R → State → Type 0) (E : ℕ → Type 0)
      → Outcome R
      → State
      → Type 0
  LoopPost I J E (value r) t = J r t
  LoopPost I J E (exited c) t = E c
  LoopPost I J E crashed t = ⊥
  LoopPost I J E out_of_fuel t = (y : S) × I y t

  pub record LoopWp (m : Prog R) (I : S → State → Type 0) (J : R → State → Type 0) (E : ℕ → Type 0)
      (s : State) : Type 0 where
    pub holds : LoopPost I J E (m s).0 (m s).1

  module _ {body : S → Prog (Round S R)} {E : ℕ → Type 0} (I : S → Claim) (J : Round S R → Claim)
      (round : (x : S) → Triple E (I x) (body x) J)
      (step : (x : S) (s : State) → Holds (J (again x)) s → Holds (I x) s) where
    pub Rounds-keep :
        {x : S} {s : State} {y : S} {t : State}
        → Rounds body x s y t
        → Holds (I x) s
        → Holds (J (again y)) t
    Rounds-keep {x} {s} (one e) h =
        subst (λ r. Post (λ a t. Holds (J a) t) (λ c t. E c) r.0 r.1) e ((round x).run s h).holds
    Rounds-keep (more {y} {t} path e) h =
        subst (λ r. Post (λ a t. Holds (J a) t) (λ c t. E c) r.0 r.1) e
          ((round y).run t (step y t (Rounds-keep path h))).holds

    abbrev Kept : Prog R → State → Type 0
    Kept m s = LoopWp m (λ y. Holds (I y)) (λ r. Holds (J (done r))) E s

    after :
        (rest : S → Prog R)
        → ((y : S) (t : State) → Holds (I y) t → Kept (rest y) t)
        → (o : Outcome (Round S R)) (t : State) → Post (λ a u. Holds (J a) u) (λ c u. E c) o t
        → LoopPost
            (λ y. Holds (I y))
            (λ r. Holds (J (done r)))
            E
            (continue o (λ r. elim r [ again y ↦ rest y | done a ↦ pure a ]) t).0
            (continue o (λ r. elim r [ again y ↦ rest y | done a ↦ pure a ]) t).1
    unfolding pure
    after rest k (value (again y)) t h = (k y t (step y t h)).holds
    after rest k (value (done r)) t h = h
    after rest k (exited c) t h = h
    after rest k crashed t h = h
    after rest k out_of_fuel t h = absurd h

    pub forever-keep :
        (rounds : ℕ) (x : S) (s : State) → Holds (I x) s → Kept (forever rounds body x) s
    unfolding forever ◌>>=◌
    forever-keep zero x s h = record { holds = (x, h) }
    forever-keep (suc n) x s h = record {
      holds =
          after (forever n body) (λ y t k. forever-keep n y t k) (body x s).0 (body x s).1
            ((round x).run s h).holds;
    }

module _ {S R : Type 0} {I : S → State → Type 0} {J : R → State → Type 0} where
  LoopPost-mono :
      (E : ℕ → Type 0) {I' : S → State → Type 0} {J' : R → State → Type 0} (o : Outcome R)
      (s : State)
      → LoopPost I J E o s
      → ((y : S) (t : State) → I y t → I' y t)
      → ((r : R) (t : State) → J r t → J' r t)
      → LoopPost I' J' E o s
  LoopPost-mono E (value r) s h f g = g r s h
  LoopPost-mono E (exited c) s h f g = h
  LoopPost-mono E crashed s h f g = absurd h
  LoopPost-mono E out_of_fuel s h f g = (h.0, f h.0 s h.1)

  pub LoopWp-mono :
      {E : ℕ → Type 0} {m : Prog R} {s : State} {I' : S → State → Type 0} {J' : R → State → Type 0}
      → LoopWp m I J E s
      → ((y : S) (t : State) → I y t → I' y t)
      → ((r : R) (t : State) → J r t → J' r t)
      → LoopWp m I' J' E s
  LoopWp-mono {E} {m} {s} w f g = record { holds = LoopPost-mono E (m s).0 (m s).1 w.holds f g }

  LoopPost-continue :
      {E : ℕ → Type 0} {A : Type 0} {Q : A → State → Type 0} (f : A → Prog R) (o : Outcome A)
      (s : State)
      → Post Q (λ c t. E c) o s
      → ((a : A) (t : State) → Q a t → LoopWp (f a) I J E t)
      → LoopPost I J E (continue o f s).0 (continue o f s).1
  LoopPost-continue f (value a) s h k = (k a s h).holds
  LoopPost-continue f (exited c) s h k = h
  LoopPost-continue f crashed s h k = absurd h
  LoopPost-continue f out_of_fuel s h k = absurd h

  -- what comes before a loop
  pub LoopWp-bind :
      {E : ℕ → Type 0} {A : Type 0} {m : Prog A} {f : A → Prog R} {Q : A → State → Type 0}
      {s : State}
      → Wp m Q (λ c t. E c) s
      → ((a : A) (t : State) → Q a t → LoopWp (f a) I J E t)
      → LoopWp (m >>= f) I J E s
  unfolding ◌>>=◌
  LoopWp-bind {m} {f} {s} w k = record { holds = LoopPost-continue f (m s).0 (m s).1 w.holds k }

-- A program without a loop, as the end of one with a loop.
pub Post-LoopPost :
    {S R : Type 0} (I : S → State → Type 0) (Q : R → State → Type 0) (E : ℕ → Type 0)
    (o : Outcome R) (s : State)
    → Post Q (λ c t. E c) o s
    → LoopPost I Q E o s
Post-LoopPost I Q E (value r) s h = h
Post-LoopPost I Q E (exited c) s h = h
Post-LoopPost I Q E crashed s h = absurd h
Post-LoopPost I Q E out_of_fuel s h = absurd h

module _ {S A R : Type 0} (I : S → State → Type 0) (J : A → State → Type 0) (E : ℕ → Type 0) where
  LoopPost-then :
      {Q : R → State → Type 0} (f : A → Prog R) (o : Outcome A) (s : State)
      → LoopPost I J E o s
      → ((a : A) (t : State) → J a t → Wp (f a) Q (λ c u. E c) t)
      → LoopPost I Q E (continue o f s).0 (continue o f s).1
  LoopPost-then f (value a) s h k = Post-LoopPost I _ E (f a s).0 (f a s).1 (k a s h).holds
  LoopPost-then f (exited c) s h k = h
  LoopPost-then f crashed s h k = h
  LoopPost-then f out_of_fuel s h k = h

  -- what comes after a loop
  pub LoopWp-then :
      {m : Prog A} {f : A → Prog R} {Q : R → State → Type 0} {s : State}
      → LoopWp m I J E s
      → ((a : A) (t : State) → J a t → Wp (f a) Q (λ c u. E c) t)
      → LoopWp (m >>= f) I Q E s
  unfolding ◌>>=◌
  LoopWp-then {m} {f} {s} w k = record { holds = LoopPost-then f (m s).0 (m s).1 w.holds k }

-- A round that is the last.
abbrev pub LastRound : {S R : Type 0} → (R → State → Type 0) → Round S R → State → Type 0
LastRound Q (again y) t = ⊥
LastRound Q (done r) t = Q r t

module _ {S R : Type 0} (Q : R → State → Type 0) (E : ℕ → State → Type 0) where
  Post-last :
      (rest : S → Prog R) (o : Outcome (Round S R)) (t : State)
      → Post (LastRound Q) E o t
      → Post Q E
          (continue o (λ r. elim r [ again y ↦ rest y | done a ↦ pure a ]) t).0
          (continue o (λ r. elim r [ again y ↦ rest y | done a ↦ pure a ]) t).1
  unfolding pure
  Post-last rest (value (again y)) t h = absurd h
  Post-last rest (value (done r)) t h = h
  Post-last rest (exited c) t h = h
  Post-last rest crashed t h = h
  Post-last rest out_of_fuel t h = h

  pub forever-last :
      (body : S → Prog (Round S R)) (rounds : ℕ) {x : S} {s : State}
      → Wp (body x) (LastRound Q) E s
      → Wp (forever (suc rounds) body x) Q E s
  unfolding forever ◌>>=◌
  forever-last body rounds {x} {s} w = record {
    holds = Post-last (forever rounds body) (body x s).0 (body x s).1 w.holds;
  }

-- More codes.
module _ {S R : Type 0} (I : S → State → Type 0) (J : R → State → Type 0) (E F : ℕ → Type 0) where
  LoopPost-exit :
      (o : Outcome R) (s : State) → LoopPost I J E o s → ((c : ℕ) → E c → F c) → LoopPost I J F o s
  LoopPost-exit (value r) s h f = h
  LoopPost-exit (exited c) s h f = f c h
  LoopPost-exit crashed s h f = h
  LoopPost-exit out_of_fuel s h f = h

  pub LoopWp-exit :
      {m : Prog R} {s : State} → LoopWp m I J E s → ((c : ℕ) → E c → F c) → LoopWp m I J F s
  LoopWp-exit {m} {s} w f = record { holds = LoopPost-exit (m s).0 (m s).1 w.holds f }
