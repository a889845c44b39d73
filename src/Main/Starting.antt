-- ===== src/Main/Starting.antt =====
-- The signals, the command, the environment and X11, before the loops.
use runwhenidle.Prelude.{
  ℕ, ◌≡◌, ◌≢◌, refl, sym, ap, ◌∙◌, inl, inr, String, Bool, true, false, not, ◌&&◌, Option, none,
  some, List, [], ◌∷◌, arith,
}
use mathlib.Core.Bool.{false≢true}
use runwhenidle.Prelude.Int.{ℤ, pos, negsuc, ◌==ℤ◌, ==ℤ_iff}
use runwhenidle.System.{
  Os, Event, Arg, Forked, fork_failed, forked, Globals, Claim, unknown, alloc_info, Prog, ◌>>=◌,
  ask, modify, when, Triple, Triple-Silent, Triple-pre, Triple-pure, Triple-modify, Triple-bind,
  Triple-bind_modify, Triple-branch, Triple-when, Triple-fact, Triple-exit, Triple-ask, Silent,
  Silent-pure, Silent-emit, Silent-ask, Silent-bind, Silent-error, Silent-stderr, Silent-printf,
  Silent-when, Silent-gets, Silent-exit,
}
use runwhenidle.Environment.Files.{Files}
use runwhenidle.Environment.Session.{User}
use runwhenidle.Process.Signals.Tree.{stopped}
use runwhenidle.Process.Starting.{started, run_shell_command}
use runwhenidle.Monitor.Invariant.{IsTracked, IsEndCode}
use runwhenidle.Wayland.Connection.{IsClosed, IsApart}
use runwhenidle.Monitor.IdleLoop.Watching.{CleanedUp}
use runwhenidle.Main.{
  block_signals, receive_signals, run_command, fail_unless_running, use_external_pid, start_command,
  print_all, infer_session, ask_xscreensaver, open_x11,
}

-- A fork gives no other id than this one.
abbrev pub ForksAs : Os → ℤ → Type 0
ForksAs os root = (h : List Event) (p : ℤ) → os.fork h ≡ forked p → p ≡ root

-- What the command line leaves: nothing has been paused and no session opened, and there is either a
-- command, or the id of the process to watch.
abbrev pub IsFresh : ℤ → Option (List ℕ) → Globals → List (ℤ × ℕ) → Type 0
IsFresh root command g l =
    (g.pause_method ≢ unknown)
    × (g.command_paused ≡ false)
    × (g.monitoring_started ≡ false)
    × IsClosed g.wayland
    × (l ≡ [])
    × (g.external_pid ≢ pos 0 → g.external_pid ≡ root)
    × (command ≡ none → g.external_pid ≢ pos 0)

-- Before the loops.
abbrev pub Early : ℤ → Claim
Early root g l = IsTracked root g l × (g.monitoring_started ≡ false)

flip : (b : Bool) → not b ≡ false → b ≡ true
flip b e = ground arith

pub Tracked-apart : (root : ℤ) → IsApart (IsTracked root)
Tracked-apart root g l w e h = record {
  root_is = h.root_is;
  known = h.known;
  flag = h.flag;
  monitored = h.monitored;
}

pub Early-apart : (root : ℤ) → IsApart (Early root)
Early-apart root g l w e h = (Tracked-apart root g l w e h.0, h.1)

pub CleanedUp-apart : (root r : ℤ) → IsApart (CleanedUp root r)
CleanedUp-apart root r g l w e (inl h) = inl (h.0, Tracked-apart root g l w e h.1)
CleanedUp-apart root r g l w e (inr h) = inr h

module _ (os : Os) (root : ℤ) where
  pub quietly :
      {A B : Type 0} {I : Claim} {m : Prog A} {f : A → Prog B} {K : B → Claim}
      → Silent m
      → ((a : A) → Triple (IsEndCode os root) I (f a) K)
      → Triple (IsEndCode os root) I (m >>= f) K
  quietly q k = Triple-bind (Triple-Silent (inl refl) q) k

  -- The signals are set up without touching anything else.
  block-Triple :
      (command : Option (List ℕ)) (failed : Option ℕ)
      → Triple
          (IsEndCode os root)
          (IsFresh root command)
          (block_signals os failed)
          (λ _. IsFresh root command)
  unfolding block_signals
  block-Triple command (some errno) = quietly (Silent-error _ _ _) λ _. Triple-exit 1 (inl refl)
  block-Triple command none = quietly (Silent-ask _ _ (λ a tr. refl)) λ fd.
      Triple-bind_modify (IsFresh root command) _ _ (λ g l h. h)
        (Triple-branch (λ _. fd ==ℤ negsuc 0)
          (quietly (Silent-error _ _ _) λ _. Triple-exit 1 (inl refl))
          (Triple-pure _ (λ g l h. h.0)))

  pub receive-Triple :
      (command : Option (List ℕ))
      → Triple
          (IsEndCode os root)
          (IsFresh root command)
          (receive_signals os)
          (λ _. IsFresh root command)
  unfolding receive_signals
  receive-Triple command =
      quietly (Silent-ask _ _ (λ a tr. refl)) λ failed. block-Triple command failed

  run_shell_command-Triple :
      (forks : ForksAs os root) (I : Claim) (command : List ℕ)
      → Triple (IsEndCode os root) I (run_shell_command os command) (λ p g l. I g l × (p ≡ root))
  unfolding run_shell_command
  run_shell_command-Triple forks I command =
      quietly (Silent-when _ _ (Silent-printf _ _))
        λ _. Triple-bind (Triple-ask os.fork _ (λ a tr. refl)) after_fork
    where
      after_fork :
          (child : Forked)
          → Triple
              (IsEndCode os root)
              (λ g l. I g l × ((h : List Event) × (child ≡ os.fork h)))
              (started os command child)
              (λ p g l. I g l × (p ≡ root))
      after_fork (fork_failed errno) = quietly (Silent-stderr _ _) λ _. Triple-exit 1 (inl refl)
      after_fork (forked p) =
          quietly (Silent-when _ _ (Silent-printf _ _))
            λ _. Triple-pure _ (λ g l h. (h.0, forks h.1.0 p (sym h.1.1)))

  -- The invariant holds once the id is known.
  abbrev pub Begun : Claim
  Begun g l = Early root g l × IsClosed g.wayland

  begin :
      (command : Option (List ℕ)) (g : Globals) (l : List (ℤ × ℕ)) (p : ℤ)
      → IsFresh root command g l
      → p ≡ root
      → Begun (record g { pid = p }) l
  unfolding stopped
  begin command g l p h e = (
    (
      record {
        root_is = e;
        known = h.0;
        flag = h.1 ∙ sym (ap (stopped root) h.4);
        monitored = λ paused. absurd (false≢true (sym h.1 ∙ paused));
      },
      h.2,
    ),
    h.3,
  )

  run_command-Triple :
      (forks : ForksAs os root) (command : Option (List ℕ))
      → Triple
          (IsEndCode os root)
          (λ g l. IsFresh root command g l × (g.external_pid ≡ pos 0))
          (run_command os command)
          (λ _. Begun)
  unfolding run_command
  run_command-Triple forks none = Triple-fact (λ g l h. h.0.6 refl h.1) λ none_. absurd none_
  run_command-Triple forks (some command) =
      Triple-bind (run_shell_command-Triple forks _ command)
        λ p. Triple-modify _ (λ g l h. begin (some command) g l p h.0.0 h.1)

  fail_unless_running-Silent :
      (pid : ℤ) (answer : Option ℕ) → Silent (fail_unless_running os pid answer)
  unfolding fail_unless_running
  fail_unless_running-Silent pid none = Silent-pure tt
  fail_unless_running-Silent pid (some errno) =
      Silent-bind _ _ (Silent-error _ _ _) (λ _. Silent-exit)

  pub start_command-Triple :
      (forks : ForksAs os root) (command : Option (List ℕ))
      → Triple (IsEndCode os root) (IsFresh root command) (start_command os command) (λ _. Begun)
  unfolding start_command use_external_pid
  start_command-Triple forks command =
      Triple-branch (λ g. not (g.external_pid ==ℤ pos 0))
        (Triple-bind_modify Begun _ _
          (λ g l h.
            begin command g l g.external_pid h.0
              (h.0.5 (λ e. false≢true (sym (ap not ((==ℤ_iff g.external_pid (pos 0)).1 e)) ∙ h.1))))
          (quietly (Silent-gets _) λ pid.
            quietly (Silent-ask _ _ (λ a tr. refl))
              λ answer. Triple-Silent (inl refl) (fail_unless_running-Silent pid answer)))
        (Triple-pre (λ g l h. (h.0, (==ℤ_iff g.external_pid (pos 0)).0 (flip _ h.1)))
          (run_command-Triple forks command))

  print_all-Silent : (lines : List (String × List Arg)) → Silent (print_all os lines)
  unfolding print_all
  print_all-Silent [] = Silent-pure tt
  print_all-Silent ((format, args) ∷ earlier) =
      Silent-bind _ _ (print_all-Silent earlier) (λ _. Silent-emit _ (λ tr. refl))

  module _ (files : Files) (user : User) where
    pub infer-Triple : Triple (IsEndCode os root) Begun (infer_session os files user) (λ _. Begun)
    unfolding infer_session
    infer-Triple = quietly (Silent-gets _) λ session.
        Triple-bind_modify Begun _ _ (λ g l h. (Early-apart root g l g.wayland _ h.0, h.1))
          (Triple-Silent (inl refl) (print_all-Silent session.printed))

    abbrev Open : Claim
    Open g l =
        IsTracked root g l
        × (g.xscreensaver_is_available ≡ true
            → g.x_display_open && g.xscreensaver_info_allocated ≡ true)

    module _ (has_info : (h : List Event) → os.x_alloc_info h ≡ true) where
      -- XScreenSaverAllocInfo succeeds, where it is called.
      allocated-Triple :
          (available : Bool)
          → Triple
              (IsEndCode os root)
              (λ g l.
                (IsTracked root g l × (g.x_display_open ≡ true))
                × (g.xscreensaver_is_available ≡ available))
              (when
                (λ _. available)
                (do
                  allocated ← ask os.x_alloc_info (λ _. alloc_info)
                  modify (λ g. record g { xscreensaver_info_allocated = allocated })))
              (λ _. Open)
      allocated-Triple available =
          Triple-when (λ _. available)
            (Triple-bind (Triple-ask os.x_alloc_info _ (λ a tr. refl)) λ allocated.
              Triple-modify _ (λ g l h. (
                record {
                  root_is = h.0.0.0.0.root_is;
                  known = h.0.0.0.0.known;
                  flag = h.0.0.0.0.flag;
                  monitored = h.0.0.0.0.monitored;
                },
                λ _. ap (λ b. b && allocated) h.0.0.0.1 ∙ h.1.1 ∙ has_info h.1.0,
              )))
            (λ g l h none_. (h.0.0, λ e. absurd (false≢true (sym none_ ∙ sym h.1 ∙ e))))

      ask_xscreensaver-Triple :
          (is_open : Bool)
          → Triple
              (IsEndCode os root)
              (λ g l. IsTracked root g l × (g.x_display_open ≡ is_open))
              (ask_xscreensaver os files user is_open)
              (λ _. Open)
      unfolding ask_xscreensaver
      ask_xscreensaver-Triple false =
          Triple-bind_modify Open _ _
            (λ g l h. (
              record {
                root_is = h.0.root_is;
                known = h.0.known;
                flag = h.0.flag;
                monitored = h.0.monitored;
              },
              λ e. absurd (false≢true e),
            ))
            (Triple-Silent (inl refl) (Silent-error _ _ _))
      ask_xscreensaver-Triple true = quietly (Silent-ask _ _ (λ a tr. refl)) λ available.
          Triple-bind_modify
            (λ g l.
              (IsTracked root g l × (g.x_display_open ≡ true))
              × (g.xscreensaver_is_available ≡ available))
            _ _
            (λ g l h. (
              (
                record {
                  root_is = h.0.root_is;
                  known = h.0.known;
                  flag = h.0.flag;
                  monitored = h.0.monitored;
                },
                h.1,
              ),
              refl,
            ))
            (allocated-Triple available)

      pub open_x11-Triple :
          Triple (IsEndCode os root) (IsTracked root) (open_x11 os files user) (λ _. Open)
      unfolding open_x11
      open_x11-Triple = quietly (Silent-emit _ (λ tr. refl)) λ _.
          quietly (Silent-gets _) λ (is_open, environment).
            Triple-bind_modify (λ g l. IsTracked root g l × (g.x_display_open ≡ is_open)) _ _
              (λ g l h. (
                record {
                  root_is = h.root_is;
                  known = h.known;
                  flag = h.flag;
                  monitored = h.monitored;
                },
                refl,
              ))
              (Triple-bind (ask_xscreensaver-Triple is_open)
                λ _. Triple-Silent (inl refl) (Silent-when _ _ (Silent-error _ _ _)))
