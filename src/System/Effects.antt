-- ===== src/System/Effects.antt =====
-- C functions as functions of the state. `exit` ends the program, and undefined behaviour and
-- a loop that has used up its fuel are outcomes of their own, which no theorem takes for success.
use runwhenidle.Prelude.{ℕ, zero, suc, String, Bool, true, false, List, [], ◌∷◌}
use runwhenidle.System.Types.{stdout, stderr, Arg, Event, print, Os, Globals, State}

pub data Outcome (A : Type 0) : Type 0 where
  value : A → Outcome A
  exited : ℕ → Outcome A
  crashed : Outcome A
  out_of_fuel : Outcome A

abbrev pub Prog : Type 0 → Type 0
Prog A = State → Outcome A × State

module _ {A B : Type 0} where
  abbrev pub continue : Outcome A → (A → Prog B) → Prog B
  continue (value a) f s = f a s
  continue (exited c) f s = (exited c, s)
  continue crashed f s = (crashed, s)
  continue out_of_fuel f s = (out_of_fuel, s)

  infixl 5 ◌>>=◌ ◌>>◌
  unfoldable pub ◌>>=◌ : Prog A → (A → Prog B) → Prog B
  ◌>>=◌ m f s = let (o, s') = m s in continue o f s'

  abbrev pub ◌>>◌ : Prog A → Prog B → Prog B
  m >> k = m >>= λ _. k

unfoldable pub pure : {A : Type 0} → A → Prog A
pure a s = (value a, s)

unfoldable pub exit : {A : Type 0} → ℕ → Prog A
exit c s = (exited c, s)

unfoldable pub crash : {A : Type 0} → Prog A
crash s = (crashed, s)

-- A result that a computation without effects has produced.
unfoldable pub lift : {A : Type 0} → Outcome A → Prog A
lift o s = (o, s)

unfoldable pub gets : {A : Type 0} → (State → A) → Prog A
gets f s = (value (f s), s)

unfoldable pub modify : (Globals → Globals) → Prog (Unit {0})
modify f s = (value tt, record s { globals = f s.globals })

unfoldable pub emit : Event → Prog (Unit {0})
emit e s = (value tt, record s { trace = e ∷ s.trace })

-- A call whose answer depends on the calls before it.
unfoldable pub ask : {A : Type 0} → (List Event → A) → (A → Event) → Prog A
ask answer event s = let a = answer s.trace in (value a, record s { trace = event a ∷ s.trace })

abbrev pub choose : {A : Type 0} → Bool → Prog A → Prog A → Prog A
choose true m n = m
choose false m n = n

-- if (test) { m } else { n }
unfoldable pub branch : {A : Type 0} → (State → Bool) → Prog A → Prog A → Prog A
branch test m n s = choose (test s) m n s

-- if (test) { m }
unfoldable pub when : (State → Bool) → Prog (Unit {0}) → Prog (Unit {0})
unfolding pure branch
when test m = branch test m (pure tt)

unfoldable pub printf : String → List Arg → Prog (Unit {0})
unfolding emit
printf format args = emit (print stdout format args)

unfoldable pub fprintf_stderr : String → List Arg → Prog (Unit {0})
unfolding emit
fprintf_stderr format args = emit (print stderr format args)

-- tty_utils.c: the message in red, if stderr is a terminal.
unfoldable pub fprintf_error : Os → String → List Arg → Prog (Unit {0})
fprintf_error os format args = do
  when (λ _. os.isatty_stderr) (fprintf_stderr "\u{1b}[%sm" (Arg.lit "1;31" ∷ []))
  fprintf_stderr format args
  when (λ _. os.isatty_stderr) (fprintf_stderr "\u{1b}[0m" [])

-- What one round of a loop does: go round again with new values of the local variables, or return.
pub data Round (S R : Type 0) : Type 0 where
  again : S → Round S R
  done : R → Round S R

-- `while (1) body`, for so many rounds.
unfoldable pub forever : {S R : Type 0} → ℕ → (S → Prog (Round S R)) → S → Prog R
forever zero body x s = (out_of_fuel, s)
forever (suc rounds) body x s =
    ◌>>=◌ (body x) (λ r. elim r [ again y ↦ forever rounds body y | done a ↦ pure a ]) s
