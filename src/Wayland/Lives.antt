-- ===== src/Wayland/Lives.antt =====
-- The rules for showing that the calls of the Wayland library are allowed, however a program ends.
use runwhenidle.Prelude.{ℕ, ◌≡◌, refl, sym, subst, Bool, true, false, Option, none, some, List, ◌∷◌}
use runwhenidle.System.{
  Event, Kind, WaylandCall, used, wayland_call, Wayland, Globals, State, Outcome, value, exited,
  crashed, out_of_fuel, Prog, continue, choose, ◌>>=◌, pure, crash, gets, emit, ask, modify, branch,
  when, calls, Mute,
}
use runwhenidle.Wayland.{created_or_not, set_wayland, pass, call_display}
use runwhenidle.Wayland.Objects.{Objects, get, put, effect, alive, IsAllowed, IsOrderly}

-- What is said of the variables and the living objects.
abbrev pub Relation : Type 1
Relation = Wayland → Objects → Type 0

abbrev pub After : {A : Type 0} → (A → Relation) → Outcome A → State → Type 0
After J (value a) t = IsOrderly (calls t.trace) × J a t.globals.wayland (alive (calls t.trace))
After J (exited c) t = IsOrderly (calls t.trace)
After J crashed t = IsOrderly (calls t.trace)
After J out_of_fuel t = IsOrderly (calls t.trace)

-- However it ends, only allowed calls have been made; `J` holds where it returns.
pub record Lives {A : Type 0} (I : Relation) (m : Prog A) (J : A → Relation) : Type 0 where
  pub run :
      (s : State)
      → IsOrderly (calls s.trace)
      → I s.globals.wayland (alive (calls s.trace))
      → After J (m s).0 (m s).1

moved :
    {A : Type 0} (I : Relation) (o : Outcome A) (s t : State)
    → calls t.trace ≡ calls s.trace
    → t.globals.wayland ≡ s.globals.wayland
    → IsOrderly (calls s.trace)
    → I s.globals.wayland (alive (calls s.trace))
    → After (λ _. I) o t
moved I (value a) s t e f q h = (
  subst IsOrderly (sym e) q,
  subst (λ cs. I t.globals.wayland (alive cs)) (sym e)
      (subst (λ w. I w (alive (calls s.trace))) (sym f) h),
)
moved I (exited c) s t e f q h = subst IsOrderly (sym e) q
moved I crashed s t e f q h = subst IsOrderly (sym e) q
moved I out_of_fuel s t e f q h = subst IsOrderly (sym e) q

choose-After :
    {A : Type 0} (b : Bool) (m n : Prog A) (L : A → Relation) (s : State)
    → (b ≡ true → After L (m s).0 (m s).1)
    → (b ≡ false → After L (n s).0 (n s).1)
    → After L (choose b m n s).0 (choose b m n s).1
choose-After true m n L s f g = f refl
choose-After false m n L s f g = g refl

-- a call that may create an object
pub Lives-create :
    {I : Relation} {J : Option ℕ → Relation} (kind : Kind) (answer : List Event → Option ℕ)
    → ((w : Wayland) (o : Objects) → I w o → get kind o ≡ none)
    → ((w : Wayland) (o : Objects) → I w o → J none w o)
    → ((w : Wayland) (o : Objects) (a : ℕ) → I w o → J (some a) w (put kind (some a) o))
    → Lives I (ask answer (created_or_not kind)) J
unfolding ask
Lives-create {I} {J} kind answer free f g = record { run = λ s q h. made (answer s.trace) s q h }
  where
    made :
        (p : Option ℕ) (s : State)
        → IsOrderly (calls s.trace)
        → I s.globals.wayland (alive (calls s.trace))
        → After J (value p) (record s { trace = created_or_not kind p ∷ s.trace })
    made none s q h = ((free _ _ h, q), f _ _ h)
    made (some a) s q h = ((free _ _ h, q), g _ _ a h)

module _ {A : Type 0} {I : Relation} where
  pub Lives-pure :
      {J : A → Relation} (a : A)
      → ((w : Wayland) (o : Objects) → I w o → J a w o)
      → Lives I (pure a) J
  unfolding pure
  Lives-pure a f = record { run = λ s q h. (q, f _ _ h) }

  pub Lives-crash : {J : A → Relation} → Lives I (crash {A = A}) J
  unfolding crash
  Lives-crash = record { run = λ s q h. q }

  pub Lives-pre :
      {I' : Relation} {m : Prog A} {J : A → Relation}
      → ((w : Wayland) (o : Objects) → I w o → I' w o)
      → Lives I' m J
      → Lives I m J
  Lives-pre f t = record { run = λ s q h. t.run s q (f _ _ h) }

  pub Lives-Mute : {m : Prog A} → Mute m → Lives I m (λ _. I)
  Lives-Mute {m} k = record { run = λ s q h. moved I (m s).0 s (m s).1 (k.at s).0 (k.at s).1 q h }

  pub Lives-bind_gets :
      {B : Type 0} (r : Wayland → B) {f : B → Prog A} {J : A → Relation}
      → ((b : B) → Lives (λ w o. I w o × (r w ≡ b)) (f b) J)
      → Lives I (gets (λ s. r s.globals.wayland) >>= f) J
  unfolding ◌>>=◌ gets
  Lives-bind_gets r k = record { run = λ s q h. (k (r s.globals.wayland)).run s q (h, refl) }

  pub Lives-reads :
      {f : Globals → Prog A} {J : A → Relation}
      → ((g : Globals) → Lives (λ w o. I w o × (w ≡ g.wayland)) (f g) J)
      → Lives I (gets (λ s. s.globals) >>= f) J
  unfolding ◌>>=◌ gets
  Lives-reads k = record { run = λ s q h. (k s.globals).run s q (h, refl) }

  -- a test of the session's variables
  pub Lives-branch :
      (test : Wayland → Bool) {m n : Prog A} {J : A → Relation}
      → Lives (λ w o. I w o × (test w ≡ true)) m J
      → Lives (λ w o. I w o × (test w ≡ false)) n J
      → Lives I (branch (λ s. test s.globals.wayland) m n) J
  unfolding branch
  Lives-branch test {m} {n} {J} a b = record {
    run = λ s q h.
        choose-After (test s.globals.wayland) m n J s (λ e. a.run s q (h, e))
          (λ e. b.run s q (h, e));
  }

  -- any other test
  pub Lives-either :
      (test : State → Bool) {m n : Prog A} {J : A → Relation}
      → Lives I m J
      → Lives I n J
      → Lives I (branch test m n) J
  unfolding branch
  Lives-either test {m} {n} {J} a b = record {
    run = λ s q h. choose-After (test s) m n J s (λ e. a.run s q h) (λ e. b.run s q h);
  }

module _ {A B : Type 0} where
  then_After :
      (J : A → Relation) (L : B → Relation) (f : A → Prog B) (o : Outcome A) (s : State)
      → After J o s
      → ((a : A) → Lives (J a) (f a) L)
      → After L (continue o f s).0 (continue o f s).1
  then_After M L f (value a) s h k = (k a).run s h.0 h.1
  then_After M L f (exited c) s h k = h
  then_After M L f crashed s h k = h
  then_After M L f out_of_fuel s h k = h

  pub Lives-bind :
      {I : Relation} {m : Prog A} {J : A → Relation} {f : A → Prog B} {L : B → Relation}
      → Lives I m J
      → ((a : A) → Lives (J a) (f a) L)
      → Lives I (m >>= f) L
  unfolding ◌>>=◌
  Lives-bind {m} {J} {f} {L} t k = record {
    run = λ s q h. then_After J L f (m s).0 (m s).1 (t.run s q h) k;
  }

module _ {I : Relation} {J : Unit {0} → Relation} where
  pub Lives-call :
      (c : WaylandCall)
      → ((w : Wayland) (o : Objects) → I w o → IsAllowed c o × J tt w (effect c o))
      → Lives I (emit (wayland_call c)) J
  unfolding emit
  Lives-call c f = record {
    run = λ s q h. let k = f s.globals.wayland (alive (calls s.trace)) h in ((k.0, q), k.1);
  }

  pub Lives-set :
      (f : Wayland → Wayland)
      → ((w : Wayland) (o : Objects) → I w o → J tt (f w) o)
      → Lives I (set_wayland f) J
  unfolding set_wayland modify
  Lives-set f k = record { run = λ s q h. (q, k _ _ h) }

pub Lives-when :
    {I : Relation} (test : Wayland → Bool) {m : Prog (Unit {0})} {J : Unit {0} → Relation}
    → Lives (λ w o. I w o × (test w ≡ true)) m J
    → ((w : Wayland) (o : Objects) → I w o → J tt w o)
    → Lives I (when (λ s. test s.globals.wayland) m) J
unfolding when
Lives-when test a f = Lives-branch test a (Lives-pure tt (λ w o h. f w o h.0))

weaker :
    {A : Type 0} (M L : A → Relation) (o : Outcome A) (s : State)
    → After M o s
    → ((a : A) (w : Wayland) (x : Objects) → M a w x → L a w x)
    → After L o s
weaker M L (value a) s h f = (h.0, f a _ _ h.1)
weaker M L (exited c) s h f = h
weaker M L crashed s h f = h
weaker M L out_of_fuel s h f = h

-- A call that creates nothing, with an answer.
pub Lives-ask :
    {A : Type 0} {I : Relation} (answer : List Event → A) (c : WaylandCall)
    → ((w : Wayland) (o : Objects) → I w o → IsAllowed c o × I w (effect c o))
    → Lives I (ask answer (λ _. wayland_call c)) (λ _. I)
unfolding ask
Lives-ask answer c f = record {
  run = λ s q h. let k = f s.globals.wayland (alive (calls s.trace)) h in ((k.0, q), k.1);
}

-- Passing a pointer that is NULL or is that of the object alive.
pub Lives-pass :
    {I : Relation} (kind : Kind) (p : Option ℕ)
    → ((w : Wayland) (o : Objects) → I w o → get kind o ≡ p)
    → Lives I (pass kind p) (λ _. I)
unfolding pass
Lives-pass kind none f = Lives-crash
Lives-pass kind (some a) f = Lives-call (used kind a) (λ w o h. (f w o h, h))

pub Lives-display :
    {A : Type 0} {I : Relation} (answer : List Event → A) (p : Option ℕ)
    → ((w : Wayland) (o : Objects) → I w o → get Kind.display o ≡ p)
    → Lives I (call_display answer p) (λ _. I)
unfolding call_display
Lives-display answer none f = Lives-crash
Lives-display answer (some a) f = Lives-ask answer (used Kind.display a) (λ w o h. (f w o h, h))

pub Lives-post :
    {A : Type 0} {I : Relation} {m : Prog A} {J L : A → Relation}
    → Lives I m J
    → ((a : A) (w : Wayland) (o : Objects) → J a w o → L a w o)
    → Lives I m L
Lives-post {m} {J} {L} t f = record { run = λ s q h. weaker J L (m s).0 (m s).1 (t.run s q h) f }
