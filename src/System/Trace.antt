-- ===== src/System/Trace.antt =====
-- The signals that a trace has delivered, newest first, and the programs that only print.
use runwhenidle.Prelude.{ℕ, suc, String, ◌≡◌, refl, sym, ◌∙◌, subst, Bool, none, List, [], ◌∷◌}
use runwhenidle.Prelude.Int.{ℤ}
use runwhenidle.System.Types.{Arg, Event, kill, Os, State}
use runwhenidle.System.Effects.{
  Outcome, value, Prog, ◌>>=◌, ◌>>◌, pure, exit, emit, gets, ask, lift, branch, when, printf,
  fprintf_stderr, fprintf_error,
}
use runwhenidle.System.Hoare.{
  Wp, Wp-bind, Wp-mono, Wp-pure, Wp-exit, Wp-gets, Wp-emit, Wp-ask, Wp-branch, Wp-when,
}

-- Signal 0 only asks whether a process exists.
abbrev pub delivered : Event → List (ℤ × ℕ) → List (ℤ × ℕ)
delivered (kill p (suc n) none) rest = (p, suc n) ∷ rest
delivered _ rest = rest

abbrev pub signals : List Event → List (ℤ × ℕ)
signals [] = []
signals (e ∷ es) = delivered e (signals es)

-- From `s` the program leaves the globals alone, and `P` holds of the result and the new trace.
abbrev pub Framed : {A : Type 0} → State → (A → List Event → Type 0) → A → State → Type 0
Framed s P a t = (t.globals ≡ s.globals) × P a t.trace

module _ {A B : Type 0} where
  -- the rule for `m >>= f` where `m` leaves the globals alone
  pub Wp-bind-Framed :
      {m : Prog A} {f : A → Prog B} {s : State} (P : A → List Event → Type 0)
      (G : ℕ → List Event → Type 0) {R : B → State → Type 0} {F : ℕ → State → Type 0}
      → Wp m (Framed s P) (Framed s G) s
      → ((a : A) (tr : List Event) → P a tr → Wp (f a) R F (record s { trace = tr }))
      → ((c : ℕ) (tr : List Event) → G c tr → F c (record s { trace = tr }))
      → Wp (m >>= f) R F s
  Wp-bind-Framed {f} {s} P G {R} {F} w k g =
      Wp-bind w
        (λ a t h.
          subst (λ gl. Wp (f a) R F (record { globals = gl; trace = t.trace })) (sym h.0)
            (k a t.trace h.1))
        (λ c t h.
          subst (λ gl. F c (record { globals = gl; trace = t.trace })) (sym h.0) (g c t.trace h.1))

-- A program that returns, leaves the globals alone and delivers no signal, such as printing.
abbrev pub Logs : Prog (Unit {0}) → State → Type 0
Logs m s = Wp m (Framed s (λ _ tr. signals tr ≡ signals s.trace)) (λ c t. ⊥) s

pub Logs-printf : (format : String) (args : List Arg) (s : State) → Logs (printf format args) s
unfolding printf
Logs-printf format args s = record { holds = (refl, refl) }

pub Logs-stderr :
    (format : String) (args : List Arg) (s : State) → Logs (fprintf_stderr format args) s
unfolding fprintf_stderr
Logs-stderr format args s = record { holds = (refl, refl) }

pub Logs-seq :
    (m n : Prog (Unit {0})) (s : State)
    → ((t : State) → Logs m t)
    → ((t : State) → Logs n t)
    → Logs (m >> n) s
Logs-seq m n s f g =
    Wp-bind (f s) (λ a t h. Wp-mono (g t) (λ _ u k. (k.0 ∙ h.0, k.1 ∙ h.1)) (λ c u k. absurd k))
      (λ c u k. absurd k)

pub Logs-when :
    (test : State → Bool) (m : Prog (Unit {0})) (s : State)
    → ((t : State) → Logs m t)
    → Logs (when test m) s
Logs-when test m s f = Wp-when test m (λ _. f s) (λ _. (refl, refl))

pub Logs-error :
    (os : Os) (format : String) (args : List Arg) (s : State)
    → Logs (fprintf_error os format args) s
unfolding fprintf_error
Logs-error os format args s =
    Logs-seq _ _ s (λ t. Logs-when _ _ t (Logs-stderr _ _))
      (λ t. Logs-seq _ _ t (Logs-stderr _ _) (λ u. Logs-when _ _ u (Logs-stderr _ _)))

-- The rule for `m >> n` where `m` only prints.
pub Wp-log :
    {m : Prog (Unit {0})} {B : Type 0} {n : Prog B} {s : State} {R : B → State → Type 0}
    {F : ℕ → State → Type 0}
    → ((t : State) → Logs m t)
    → ((tr : List Event) → signals tr ≡ signals s.trace → Wp n R F (record s { trace = tr }))
    → Wp (m >> n) R F s
Wp-log {s} f k =
    Wp-bind-Framed _ (λ _ _. ⊥) (Wp-mono (f s) (λ _ t h. h) (λ c t h. absurd h)) (λ _ tr h. k tr h)
      (λ c tr h. absurd h)

-- A program that returns or calls exit(1), leaves the globals alone and delivers no signal.
pub record Silent {A : Type 0} (m : Prog A) : Type 0 where
  pub at :
      (s : State)
      → Wp m
          (Framed s (λ _ tr. signals tr ≡ signals s.trace))
          (Framed s (λ c tr. (c ≡ 1) × (signals tr ≡ signals s.trace)))
          s

module _ {A : Type 0} where
  pub Silent-pure : (a : A) → Silent (pure a)
  Silent-pure a = record { at = λ s. Wp-pure a (refl, refl) }

  pub Silent-exit : Silent (exit {A = A} 1)
  Silent-exit = record { at = λ s. Wp-exit 1 (refl, (refl, refl)) }

  pub Silent-gets : (f : State → A) → Silent (gets f)
  Silent-gets f = record { at = λ s. Wp-gets f (refl, refl) }

  -- a call that is no `kill`
  pub Silent-ask :
      (answer : List Event → A) (event : A → Event)
      → ((a : A) (tr : List Event) → signals (event a ∷ tr) ≡ signals tr)
      → Silent (ask answer event)
  Silent-ask answer event h = record { at = λ s. Wp-ask answer event (refl, h _ s.trace) }

  pub Silent-branch :
      (test : State → Bool) (m n : Prog A) → Silent m → Silent n → Silent (branch test m n)
  Silent-branch test m n f g = record { at = λ s. Wp-branch test m n (λ _. f.at s) (λ _. g.at s) }

pub Silent-emit :
    (e : Event) → ((tr : List Event) → signals (e ∷ tr) ≡ signals tr) → Silent (emit e)
Silent-emit e h = record { at = λ s. Wp-emit e (refl, h s.trace) }

pub Silent-when : (test : State → Bool) (m : Prog (Unit {0})) → Silent m → Silent (when test m)
Silent-when test m f = record { at = λ s. Wp-when test m (λ _. f.at s) (λ _. (refl, refl)) }

pub Logs-Silent : (m : Prog (Unit {0})) → ((s : State) → Logs m s) → Silent m
Logs-Silent m f = record { at = λ s. Wp-mono (f s) (λ _ t h. h) (λ c t h. absurd h) }

pub Silent-printf : (format : String) (args : List Arg) → Silent (printf format args)
Silent-printf format args = Logs-Silent _ (Logs-printf format args)

pub Silent-stderr : (format : String) (args : List Arg) → Silent (fprintf_stderr format args)
Silent-stderr format args = Logs-Silent _ (Logs-stderr format args)

pub Silent-error :
    (os : Os) (format : String) (args : List Arg) → Silent (fprintf_error os format args)
Silent-error os format args = Logs-Silent _ (Logs-error os format args)

pub Silent-bind :
    {A B : Type 0} (m : Prog A) (f : A → Prog B)
    → Silent m
    → ((a : A) → Silent (f a))
    → Silent (m >>= f)
Silent-bind m f k l = record {
  at = λ s.
      Wp-bind-Framed _ _ (k.at s)
        (λ a tr h.
          Wp-mono ((l a).at (record s { trace = tr })) (λ b t q. (q.0, q.1 ∙ h))
            (λ c t q. (q.0, (q.1.0, q.1.1 ∙ h))))
        (λ c tr h. (refl, h));
}

module _ {A B : Type 0} (f : A → Prog B) where
  -- what follows may use how the value came about
  pub Silent-bind_ask :
      (answer : List Event → A) (event : A → Event)
      → ((a : A) (tr : List Event) → signals (event a ∷ tr) ≡ signals tr)
      → ((h : List Event) → Silent (f (answer h)))
      → Silent (ask answer event >>= f)
  unfolding ◌>>=◌ ask
  Silent-bind_ask answer event quiet k = record {
    at = λ s.
        let w = (k s.trace).at (record s { trace = event (answer s.trace) ∷ s.trace }) in
        let e = quiet (answer s.trace) s.trace in
        record {
          holds = (Wp-mono w (λ b t q. (q.0, q.1 ∙ e)) (λ c t q. (q.0, (q.1.0, q.1.1 ∙ e)))).holds;
        };
  }

  pub Silent-bind_gets : (g : State → A) → ((s : State) → Silent (f (g s))) → Silent (gets g >>= f)
  unfolding ◌>>=◌ gets
  Silent-bind_gets g k = record { at = λ s. record { holds = ((k s).at s).holds } }

  pub Silent-bind_lift :
      (o : Outcome A) (a : A) → o ≡ value a → Silent (f a) → Silent (lift o >>= f)
  unfolding ◌>>=◌ lift
  Silent-bind_lift o a e k =
      subst (λ r. Silent (lift r >>= f)) (sym e)
        (record { at = λ s. record { holds = (k.at s).holds } })

pub ruleset silent_rules = (
  Silent-pure, Silent-exit, Silent-gets, Silent-branch, Silent-when, Silent-printf, Silent-stderr,
  Silent-error, Silent-bind,
)

-- The rule for `m >>= f` where `m` is silent.
pub Wp-Silent :
    {A B : Type 0} {m : Prog A} {f : A → Prog B} {s : State} {R : B → State → Type 0}
    {F : ℕ → State → Type 0}
    → Silent m
    → ((a : A) (tr : List Event)
        → signals tr ≡ signals s.trace
        → Wp (f a) R F (record s { trace = tr }))
    → ((tr : List Event) → signals tr ≡ signals s.trace → F 1 (record s { trace = tr }))
    → Wp (m >>= f) R F s
Wp-Silent {s} {F} q k g =
    Wp-bind-Framed _ _ (q.at s) k
      (λ c tr h. subst (λ n. F n (record s { trace = tr })) (sym h.0) (g tr h.1))
