-- ===== src/Process/Signals/Delivery.antt =====
-- Which signals the functions of `Signals` deliver.
use runwhenidle.Prelude.{
  ℕ, suc, String, ◌≡◌, ◌≢◌, refl, ◌∙◌, ap, Bool, true, false, Option, none, some, List, [], ◌∷◌,
}
use runwhenidle.Prelude.Int.{ℤ, pos, ◌==ℤ◌, ==ℤ_iff}
use runwhenidle.System.{
  Os, Event, State, Globals, kill, sigcont, sigstop, sigtstp, PauseMethod, unknown, sigtstp_method,
  sigstop_method, Prog, Wp, Wp-mono, Wp-bind_gets, Wp-pure, Wp-ask, Wp-exit, Framed, Wp-bind-Framed,
  Wp-Silent, ◌>>=◌, ◌>>◌, Logs-when, Logs-stderr, delivered, Silent-when, Silent-printf,
  Silent-stderr, Silent-error, signals,
}
use runwhenidle.Process.Descendants.{ProcessInfo, ids}
use runwhenidle.Process.Table.{get_child_processes}
use runwhenidle.Process.Table.Snapshot.{ProcWorks, IsAnswer, get_child_processes-Wp}
use runwhenidle.Process.Signals.{
  handle_kill_error, check_kill, send_signal_to_pid, pause_by, pause_command, resume_command,
  for_each_process, pause_command_recursively, resume_command_recursively,
}
use runwhenidle.Process.Descendants.Forest.{Descendant-mem}
use mathlib.Core.List.{Memᴰ}

-- `sig` sent to each of a list of processes in turn, after what was sent before.
abbrev pub deliver : ℕ → List ℤ → List (ℤ × ℕ) → List (ℤ × ℕ)
deliver sig [] before = before
deliver sig (p ∷ ps) before = deliver sig ps ((p, sig) ∷ before)

abbrev pub pause_signal : PauseMethod → ℕ
pause_signal unknown = 0
pause_signal sigtstp_method = sigtstp
pause_signal sigstop_method = sigstop

-- A call that sends `sig` to the processes of `ps`, or ends the program with 1 after some of them.
abbrev pub Sends : {A : Type 0} → Prog A → ℕ → (A → List ℤ → Type 0) → State → Type 0
Sends m sig P s =
    Wp m
      (Framed s (λ a tr. (ps : List ℤ) × P a ps × (signals tr ≡ deliver sig ps (signals s.trace))))
      (Framed s
        (λ c tr. (c ≡ 1) × ((ps : List ℤ) × (signals tr ≡ deliver sig ps (signals s.trace)))))
      s

module _ (os : Os) where
  check_kill-Wp :
      (p : ℤ) (n : ℕ) (name : String) (result : Option ℕ) (s : State) (before : List Event)
      → signals s.trace ≡ signals (kill p (suc n) result ∷ before)
      → Wp
          (check_kill os p name result)
          (Framed s (λ _ tr. signals tr ≡ (p, suc n) ∷ signals before))
          (Framed s (λ c tr. (c ≡ 1) × (signals tr ≡ signals before)))
          s
  unfolding check_kill handle_kill_error
  check_kill-Wp p n name none s before h =
      Wp-mono (Logs-when _ _ s (Logs-stderr _ _)) (λ _ t q. (q.0, q.1 ∙ h)) (λ c t q. absurd q)
  check_kill-Wp p n name (some errno) s before h =
      Wp-Silent (Silent-stderr _ _) (λ _ tr e. Wp-exit 1 (refl, (refl, e ∙ h)))
        (λ tr e. (refl, (refl, e ∙ h)))

  -- One signal: delivered, or the program ends with 1 and it was not.
  pub send-Wp :
      (p : ℤ) (n : ℕ) (name : String) (s : State)
      → Wp
          (send_signal_to_pid os p (suc n) name)
          (Framed s (λ _ tr. signals tr ≡ (p, suc n) ∷ signals s.trace))
          (Framed s (λ c tr. (c ≡ 1) × (signals tr ≡ signals s.trace)))
          s
  unfolding send_signal_to_pid
  send-Wp p n name s =
      Wp-Silent (Silent-when _ _ (Silent-printf _ _))
        (λ _ tr e.
          Wp-bind-Framed (λ r tr'. signals tr' ≡ signals (kill p (suc n) r ∷ s.trace)) (λ c tr'. ⊥)
            (Wp-ask _ _ (refl, ap (delivered (kill p (suc n) (os.kill tr p (suc n)))) e))
            (λ r tr' q. check_kill-Wp p n name r (record s { trace = tr' }) s.trace q)
            (λ c tr' q. absurd q))
        (λ tr e. (refl, (refl, e)))

  pause_by-Wp :
      (m : PauseMethod) (p : ℤ) (s : State)
      → Wp
          (pause_by os m p)
          (Framed s (λ _ tr. signals tr ≡ (p, pause_signal m) ∷ signals s.trace))
          (Framed s (λ c tr. (c ≡ 1) × (signals tr ≡ signals s.trace)))
          s
  unfolding pause_by
  pause_by-Wp sigtstp_method p s = send-Wp p 19 "SIGTSTP" s
  pause_by-Wp sigstop_method p s = send-Wp p 18 "SIGSTOP" s
  pause_by-Wp unknown p s =
      Wp-Silent (Silent-error _ _ _) (λ _ tr e. Wp-exit 1 (refl, (refl, e)))
        (λ tr e. (refl, (refl, e)))

  pub pause_command-Wp :
      (p : ℤ) (s : State)
      → Wp
          (pause_command os p)
          (Framed s (λ _ tr. signals tr ≡ (p, pause_signal s.pause_method) ∷ signals s.trace))
          (Framed s (λ c tr. (c ≡ 1) × (signals tr ≡ signals s.trace)))
          s
  unfolding pause_command
  pause_command-Wp p s =
      Wp-Silent (Silent-when _ _ (Silent-printf _ _))
        (λ _ tr e. Wp-bind_gets _ _ (
          Wp-mono (pause_by-Wp s.pause_method p (record s { trace = tr }))
            (λ _ t q. (q.0, q.1 ∙ ap (λ l. (p, pause_signal s.pause_method) ∷ l) e))
            (λ c t q. (q.0, (q.1.0, q.1.1 ∙ e)))))
        (λ tr e. (refl, (refl, e)))

  pub resume_command-Wp :
      (p : ℤ) (s : State)
      → Wp
          (resume_command os p)
          (Framed s (λ _ tr. signals tr ≡ (p, sigcont) ∷ signals s.trace))
          (Framed s (λ c tr. (c ≡ 1) × (signals tr ≡ signals s.trace)))
          s
  unfolding resume_command
  resume_command-Wp p s =
      Wp-Silent (Silent-when _ _ (Silent-printf _ _))
        (λ _ tr e.
          Wp-mono (send-Wp p 17 "SIGCONT" (record s { trace = tr }))
            (λ _ t q. (q.0, q.1 ∙ ap (λ l. (p, sigcont) ∷ l) e))
            (λ c t q. (q.0, (q.1.0, q.1.1 ∙ e))))
        (λ tr e. (refl, (refl, e)))

flip_true : (b : Bool) → ¬ (b ≡ true) → b ≡ false
flip_true true n = absurd (n refl)
flip_true false n = refl

-- The loop over the descendants, for an action that sends `sig`, whatever the trace.
module _ (act : ℤ → Prog (Unit {0})) (gl : Globals) (sig : ℕ)
    (sends : (p : ℤ) (tr : List Event)
      → let s : State = record { globals = gl; trace = tr } in
        Wp
          (act p)
          (Framed s (λ _ tr'. signals tr' ≡ (p, sig) ∷ signals tr))
          (Framed s (λ c tr'. (c ≡ 1) × (signals tr' ≡ signals tr)))
          s) where
  for_each-Wp :
      (ps : List ProcessInfo) (tr : List Event)
      → ((p : ProcessInfo) → Memᴰ p ps → p.process_id ≢ pos 0)
      → Sends
          (for_each_process act ps)
          sig
          (λ _ sent. sent ≡ ids ps)
          (record { globals = gl; trace = tr })
  unfolding for_each_process
  for_each-Wp [] tr nonzero = Wp-pure tt (refl, ([], refl, refl))
  for_each-Wp (p ∷ ps) tr nonzero =
      let e : (p.process_id ==ℤ pos 0) ≡ false =
        flip_true _ (λ z. nonzero p (Memᴰ.head refl) ((==ℤ_iff p.process_id (pos 0)).0 z)) in
      rw (e, for_each_process)
        (Wp-bind-Framed _ _ (sends p.process_id tr)
          (λ _ tr' q.
            Wp-mono (for_each-Wp ps tr' (λ r m. nonzero r (Memᴰ.tail m)))
              (λ _ t k. (
                k.0,
                (
                  p.process_id ∷ k.1.0,
                  ap (λ l. p.process_id ∷ l) k.1.1,
                  k.1.2 ∙ ap (deliver sig k.1.0) q,
                ),
              ))
              (λ c t k.
                (k.0, (k.1.0, (p.process_id ∷ k.1.1.0, k.1.1.1 ∙ ap (deliver sig k.1.1.0) q)))))
          (λ c tr' q. (refl, (q.0, ([], q.1)))))

module _ (os : Os) (root : ℤ) (works : ProcWorks os root) where
  -- What a recursive pause or resume delivers.
  abbrev pub ToTree : Unit {0} → List ℤ → Type 0
  ToTree _ sent =
      (found : List ProcessInfo) × IsAnswer os root works found × (sent ≡ root ∷ ids found)

  module _ (act : ℤ → Prog (Unit {0})) (gl : Globals) (sig : ℕ)
      (sends : (p : ℤ) (tr : List Event)
        → let s : State = record { globals = gl; trace = tr } in
          Wp
            (act p)
            (Framed s (λ _ tr'. signals tr' ≡ (p, sig) ∷ signals tr))
            (Framed s (λ c tr'. (c ≡ 1) × (signals tr' ≡ signals tr)))
            s) where
    tree-Wp :
        (tr : List Event)
        → Sends
            (do
              act root
              child_process_ids ← get_child_processes os root
              for_each_process act child_process_ids)
            sig
            ToTree
            (record { globals = gl; trace = tr })
    tree-Wp tr =
        Wp-bind-Framed _ _ (sends root tr)
          (λ _ tr1 q.
            Wp-bind-Framed _ _
              (get_child_processes-Wp os root works (record { globals = gl; trace = tr1 }))
              (λ found tr2 k.
                let nonzero = λ (p : ProcessInfo) (m : Memᴰ p found).
                  works.numbered k.0.table k.0.snapshot p (Descendant-mem ((k.0.exact p).0 m)) in
                Wp-mono (for_each-Wp act gl sig sends found tr2 nonzero)
                  (λ _ t r. (
                    r.0,
                    (
                      root ∷ r.1.0,
                      (found, k.0, ap (λ l. root ∷ l) r.1.1),
                      r.1.2 ∙ ap (deliver sig r.1.0) (k.1 ∙ q),
                    ),
                  ))
                  (λ c t r.
                    (r.0, (r.1.0, (root ∷ r.1.1.0, r.1.1.1 ∙ ap (deliver sig r.1.1.0) (k.1 ∙ q))))))
              (λ c tr2 k. (refl, (k.0, (root ∷ [], k.1 ∙ q)))))
          (λ c tr1 q. (refl, (q.0, ([], q.1))))

  pub pause_recursively-Wp :
      (s : State) → Sends (pause_command_recursively os root) (pause_signal s.pause_method) ToTree s
  unfolding pause_command_recursively
  pause_recursively-Wp s =
      tree-Wp (pause_command os) s.globals (pause_signal s.pause_method)
        (λ p tr. pause_command-Wp os p (record s { trace = tr })) s.trace

  pub resume_recursively-Wp :
      (s : State) → Sends (resume_command_recursively os root) sigcont ToTree s
  unfolding resume_command_recursively
  resume_recursively-Wp s =
      tree-Wp (resume_command os) s.globals sigcont
        (λ p tr. resume_command-Wp os p (record s { trace = tr })) s.trace
