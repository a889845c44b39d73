-- ===== src/Process/Signals/Tree.antt =====
-- Which processes are stopped, as far as the program's own signals go, and that pausing and resuming
-- reach a whole process tree.
use runwhenidle.Prelude.{
  ℕ, ◌≡◌, ◌≢◌, refl, sym, subst, ◌⊎◌, Bool, true, false, List, [], ◌∷◌, arith, ◌==◌, if◌then◌else◌,
  ◌||◌, ◌&&◌,
}
use runwhenidle.Prelude.Int.{ℤ, ◌==ℤ◌, ==ℤ_iff}
use runwhenidle.System.{
  Os, State, sigint, sigterm, sigcont, sigstop, sigtstp, PauseMethod, unknown, sigtstp_method,
  sigstop_method, Wp, Wp-mono, signals,
}
use runwhenidle.Process.Descendants.{ProcessInfo, ids}
use runwhenidle.Process.Descendants.Forest.{Descendant}
use runwhenidle.Process.Table.Snapshot.{ProcWorks, IsSnapshot}
use runwhenidle.Process.Signals.{pause_command_recursively, resume_command_recursively}
use runwhenidle.Process.Signals.Delivery.{
  deliver, pause_signal, ToTree, pause_recursively-Wp, resume_recursively-Wp,
}
use mathlib.Core.List.{Memᴰ}
use mathlib.Core.List.Memᴰ

-- Whether the last of SIGSTOP, SIGTSTP and SIGCONT that went to `p` is one of the first two.
unfoldable pub stopped : ℤ → List (ℤ × ℕ) → Bool
stopped p [] = false
stopped p ((q, sig) ∷ before) =
    let earlier = stopped p before in
    if q ==ℤ p && (sig == sigstop || sig == sigtstp)
    then true
    else if q ==ℤ p && sig == sigcont
    then false
    else earlier

-- `sig` puts a process into the state `b`.
abbrev pub Puts : ℕ → Bool → Type 0
Puts sig b =
    (p q : ℤ) (l : List (ℤ × ℕ)) → stopped p ((q, sig) ∷ l) ≡ (if q ==ℤ p then b else stopped p l)

pub pause_signal-Puts : (m : PauseMethod) → m ≢ unknown → Puts (pause_signal m) true
unfolding stopped
pause_signal-Puts unknown h p q l = absurd (h refl)
pause_signal-Puts sigtstp_method h p q l = ground arith
pause_signal-Puts sigstop_method h p q l = ground arith

pub sigcont-Puts : Puts sigcont false
unfolding stopped
sigcont-Puts p q l = ground arith

-- SIGINT and SIGTERM do not count.
pub stopped-interruption :
    (p q : ℤ) (sig : ℕ) (l : List (ℤ × ℕ))
    → (sig ≡ sigint) ⊎ (sig ≡ sigterm)
    → stopped p ((q, sig) ∷ l) ≡ stopped p l
unfolding stopped
stopped-interruption p q sig l h = ground arith

module _ (sig : ℕ) (b : Bool) (puts : Puts sig b) where
  pub stopped-deliver_keep :
      (p : ℤ) (ps : List ℤ) (l : List (ℤ × ℕ)) → stopped p l ≡ b → stopped p (deliver sig ps l) ≡ b
  stopped-deliver_keep p [] l h = h
  stopped-deliver_keep p (q ∷ ps) l h =
      stopped-deliver_keep p ps ((q, sig) ∷ l) (ground (arith, puts p q l))

  pub stopped-deliver :
      (p : ℤ) (ps : List ℤ) (l : List (ℤ × ℕ)) → Memᴰ p ps → stopped p (deliver sig ps l) ≡ b
  stopped-deliver p [] l m = absurd (Memᴰ.not-nil m)
  stopped-deliver p (q ∷ ps) l (Memᴰ.head e) =
      stopped-deliver_keep p ps ((q, sig) ∷ l) (ground (arith, puts p q l, ==ℤ_iff q p, sym e))
  stopped-deliver p (q ∷ ps) l (Memᴰ.tail m) = stopped-deliver p ps ((q, sig) ∷ l) m

-- The process and its descendants in a table that the program has read are in the state `b`.
pub record TreeIs (os : Os) (root : ℤ) (b : Bool) (l : List (ℤ × ℕ)) : Type 0 where
  pub table : List ProcessInfo
  pub snapshot : IsSnapshot os table
  pub root_is : stopped root l ≡ b
  pub below_is : (p : ProcessInfo) → Descendant table root p → stopped p.process_id l ≡ b

module _ (os : Os) (root : ℤ) (works : ProcWorks os root) where
  TreeIs-deliver :
      (sig : ℕ) (b : Bool) (sent : List ℤ) (l l' : List (ℤ × ℕ))
      → Puts sig b
      → ToTree os root works tt sent
      → l' ≡ deliver sig sent l
      → TreeIs os root b l'
  TreeIs-deliver sig b sent l l' puts (found, answer, e) h =
      let reach = λ (p : ℤ) (m : Memᴰ p (root ∷ ids found)).
        subst (λ k. stopped p k ≡ b) (sym h)
          (stopped-deliver sig b puts p sent l (subst (Memᴰ p) (sym e) m)) in
      record {
        table = answer.table;
        snapshot = answer.snapshot;
        root_is = reach root (Memᴰ.head refl);
        below_is = λ p d.
            reach p.process_id (Memᴰ.tail (Memᴰ.map (λ q. q.process_id) ((answer.exact p).1 d)));
      }

pub pause_stops_tree :
    (os : Os) (root : ℤ) (works : ProcWorks os root) (s : State)
    → s.pause_method ≢ unknown
    → Wp
        (pause_command_recursively os root)
        (λ _ t. (t.globals ≡ s.globals) × TreeIs os root true (signals t.trace))
        (λ c t. (t.globals ≡ s.globals) × (c ≡ 1))
        s
pause_stops_tree os root works s known =
    Wp-mono (pause_recursively-Wp os root works s)
      (λ _ t h. (
        h.0,
        TreeIs-deliver os root works _ true h.1.0 _ _ (pause_signal-Puts s.pause_method known) h.1.1
            h.1.2,
      ))
      (λ c t h. (h.0, h.1.0))

pub resume_continues_tree :
    (os : Os) (root : ℤ) (works : ProcWorks os root) (s : State)
    → Wp
        (resume_command_recursively os root)
        (λ _ t. (t.globals ≡ s.globals) × TreeIs os root false (signals t.trace))
        (λ c t. (t.globals ≡ s.globals) × (c ≡ 1))
        s
resume_continues_tree os root works s =
    Wp-mono (resume_recursively-Wp os root works s)
      (λ _ t h. (h.0, TreeIs-deliver os root works _ false h.1.0 _ _ sigcont-Puts h.1.1 h.1.2))
      (λ c t h. (h.0, h.1.0))
