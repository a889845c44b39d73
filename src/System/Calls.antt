-- ===== src/System/Calls.antt =====
-- The calls of the Wayland library in a trace, and the programs that make none.
use runwhenidle.Prelude.{
  ℕ, zero, suc, String, ◌≡◌, refl, sym, ◌∙◌, Bool, true, false, List, [], ◌∷◌,
}
use runwhenidle.System.Types.{Arg, WaylandCall, Event, wayland_call, Os, Globals, State}
use runwhenidle.System.Effects.{
  Outcome, value, exited, crashed, out_of_fuel, Prog, Round, again, done, continue, ◌>>=◌, pure,
  exit, crash, lift, gets, modify, emit, ask, choose, branch, when, printf, fprintf_stderr,
  fprintf_error, forever,
}

-- Newest first.
abbrev pub calls : List Event → List WaylandCall
calls [] = []
calls (wayland_call c ∷ es) = c ∷ calls es
calls (_ ∷ es) = calls es

-- However it ends, the program has made no call of the library and left the session's variables alone.
pub record Mute {A : Type 0} (m : Prog A) : Type 0 where
  pub at :
      (s : State)
      → (calls (m s).1.trace ≡ calls s.trace) × ((m s).1.globals.wayland ≡ s.globals.wayland)

module _ {A : Type 0} where
  pub Mute-pure : (a : A) → Mute (pure a)
  unfolding pure
  Mute-pure a = record { at = λ s. (refl, refl) }

  pub Mute-exit : (c : ℕ) → Mute (exit {A = A} c)
  unfolding exit
  Mute-exit c = record { at = λ s. (refl, refl) }

  pub Mute-crash : Mute (crash {A = A})
  unfolding crash
  Mute-crash = record { at = λ s. (refl, refl) }

  pub Mute-lift : (o : Outcome A) → Mute (lift o)
  unfolding lift
  Mute-lift o = record { at = λ s. (refl, refl) }

  pub Mute-gets : (f : State → A) → Mute (gets f)
  unfolding gets
  Mute-gets f = record { at = λ s. (refl, refl) }

  pub Mute-ask :
      (answer : List Event → A) (event : A → Event)
      → ((a : A) (tr : List Event) → calls (event a ∷ tr) ≡ calls tr)
      → Mute (ask answer event)
  unfolding ask
  Mute-ask answer event h = record { at = λ s. (h _ s.trace, refl) }

  Mute-choose : (b : Bool) (m n : Prog A) → Mute m → Mute n → Mute (choose b m n)
  Mute-choose true m n f g = f
  Mute-choose false m n f g = g

  pub Mute-branch : (test : State → Bool) (m n : Prog A) → Mute m → Mute n → Mute (branch test m n)
  unfolding branch
  Mute-branch test m n f g = record { at = λ s. (Mute-choose (test s) m n f g).at s }

pub Mute-modify :
    (f : Globals → Globals) → ((g : Globals) → (f g).wayland ≡ g.wayland) → Mute (modify f)
unfolding modify
Mute-modify f h = record { at = λ s. (refl, h s.globals) }

pub Mute-emit : (e : Event) → ((tr : List Event) → calls (e ∷ tr) ≡ calls tr) → Mute (emit e)
unfolding emit
Mute-emit e h = record { at = λ s. (h s.trace, refl) }

pub Mute-when : (test : State → Bool) (m : Prog (Unit {0})) → Mute m → Mute (when test m)
unfolding when
Mute-when test m f = Mute-branch test m (pure tt) f (Mute-pure tt)

pub Mute-printf : (format : String) (args : List Arg) → Mute (printf format args)
unfolding printf
Mute-printf format args = record { at = λ s. (refl, refl) }

pub Mute-stderr : (format : String) (args : List Arg) → Mute (fprintf_stderr format args)
unfolding fprintf_stderr
Mute-stderr format args = record { at = λ s. (refl, refl) }

module _ {A B : Type 0} where
  Mute-continue :
      (f : A → Prog B) (o : Outcome A) (s : State)
      → ((a : A) → Mute (f a))
      → (calls (continue o f s).1.trace ≡ calls s.trace)
        × ((continue o f s).1.globals.wayland ≡ s.globals.wayland)
  Mute-continue f (value a) s k = (k a).at s
  Mute-continue f (exited c) s k = (refl, refl)
  Mute-continue f crashed s k = (refl, refl)
  Mute-continue f out_of_fuel s k = (refl, refl)

  pub Mute-bind : (m : Prog A) (f : A → Prog B) → Mute m → ((a : A) → Mute (f a)) → Mute (m >>= f)
  unfolding ◌>>=◌
  Mute-bind m f q k = record {
    at = λ s.
        let first = q.at s in
        let later = Mute-continue f (m s).0 (m s).1 k in (later.0 ∙ first.0, later.1 ∙ first.1);
  }

pub Mute-error : (os : Os) (format : String) (args : List Arg) → Mute (fprintf_error os format args)
unfolding fprintf_error
Mute-error os format args =
    Mute-bind _ _ (Mute-when _ _ (Mute-stderr _ _))
      (λ _. Mute-bind _ _ (Mute-stderr _ _) (λ _. Mute-when _ _ (Mute-stderr _ _)))

pub ruleset mute_rules = (
  Mute-pure, Mute-exit, Mute-crash, Mute-lift, Mute-gets, Mute-ask, Mute-branch, Mute-modify,
  Mute-emit, Mute-when, Mute-printf, Mute-stderr, Mute-bind, Mute-error, refl,
)

module _ {S R : Type 0} where
  next_round :
      (body : S → Prog (Round S R)) (rounds : ℕ)
      → ((x : S) → Mute (forever rounds body x))
      → (r : Round S R)
      → Mute (elim r as (λ _. Prog R) [ again y ↦ forever rounds body y | done a ↦ pure a ])
  next_round body rounds k (again y) = k y
  next_round body rounds k (done a) = Mute-pure a

  pub Mute-forever :
      (body : S → Prog (Round S R))
      → ((x : S) → Mute (body x))
      → (rounds : ℕ) (x : S) → Mute (forever rounds body x)
  unfolding forever
  Mute-forever body f zero x = record { at = λ s. (refl, refl) }
  Mute-forever body f (suc rounds) x = record {
    at = λ s.
        (Mute-bind _ _ (f x) (next_round body rounds (λ y. Mute-forever body f rounds y))).at s;
  }
