-- ===== src/Monitor/IdleLoop/Stages/Dispatch.antt =====
-- A dispatch of Wayland events, with the callbacks that it makes, keeps what holds between rounds.
use runwhenidle.Prelude.{
  ℕ, ◌≡◌, sym, subst, Bool, true, false, Option, none, some, List, [], ◌∷◌, ◌&&◌,
}
use mathlib.Core.Bool.{false≢true}
use runwhenidle.Prelude.Int.{ℤ}
use runwhenidle.System.{
  Os, Event, Dispatched, Global, RegistryCallback, global, global_remove, Callback, of_registry,
  idled, resumed, Triple, Triple-pre, Triple-post, Triple-pure, Triple-bind, Triple-bind_gets,
  Triple-branch, Triple-when, Triple-fact, Triple-value,
}
use runwhenidle.Arguments.Options.{strcmp_equal}
use runwhenidle.Process.Table.Snapshot.{ProcWorks}
use runwhenidle.Monitor.Invariant.{IsEndCode}
use runwhenidle.Monitor.Activity.Callbacks.{idled-Triple, resumed-Triple}
use runwhenidle.Wayland.{
  wl_seat, ext_idle_notifier_v1, is_null, registry_callback, wayland_registry_global,
}
use runwhenidle.Wayland.Notification.{call_display-Silent}
use runwhenidle.Monitor.IdleLoop.Locals.{LoopLocals}
use runwhenidle.Monitor.IdleLoop.Watching.{IsWatching, Watched, IsWatching-stable, quietly}
use runwhenidle.Monitor.IdleLoop.Stages.{callback_on, run_callback, run_callbacks, dispatch_by}

not_there : (a b : Bool) → a && b ≡ true → b ≡ false → ⊥
not_there true true e f = false≢true (sym f)
not_there true false e f = false≢true e
not_there false b e f = false≢true e

module _ (os : Os) (root : ℤ) (works : ProcWorks os root) (l : LoopLocals) where
  -- The seat and the notifier are there, so that an announcement changes nothing.
  registry_global-Triple :
      (registry : ℕ) (g : Global)
      → Triple
          (IsEndCode os root)
          (Watched root l)
          (wayland_registry_global os registry g)
          (λ _. Watched root l)
  unfolding wayland_registry_global
  registry_global-Triple registry a =
      Triple-branch (λ g. strcmp_equal a.interface wl_seat && is_null g.wayland.wayland_seat)
        (Triple-fact (λ g ss h. not_there _ _ h.1 h.0.1.connected.has_seat) λ none_. absurd none_)
        (Triple-pre (λ g ss h. h.0)
          (Triple-when
            (λ g.
              strcmp_equal a.interface ext_idle_notifier_v1
              && is_null g.wayland.wayland_idle_notifier)
            (Triple-fact (λ g ss h. not_there _ _ h.1 h.0.1.connected.has_notifier)
              λ none_. absurd none_)
            (λ g ss h _. h)))

  callback_on-Triple :
      (registry : Option ℕ) (c : RegistryCallback)
      → is_null registry ≡ false
      → Triple
          (IsEndCode os root)
          (Watched root l)
          (callback_on os registry c)
          (λ _. Watched root l)
  unfolding callback_on registry_callback
  callback_on-Triple none c e = absurd (false≢true (sym e))
  callback_on-Triple (some r) (global g) e = registry_global-Triple r g
  callback_on-Triple (some r) (global_remove name) e = Triple-pure _ (λ g ss h. h)

  run_callback-Triple :
      (c : Callback)
      → Triple (IsEndCode os root) (Watched root l) (run_callback os c) (λ _. Watched root l)
  unfolding run_callback
  run_callback-Triple (of_registry c) =
      Triple-bind_gets (λ g. g.wayland.wayland_registry)
        λ registry.
          Triple-fact (λ g ss h. subst (λ p. is_null p ≡ false) h.1 h.0.1.connected.has_registry)
            λ there. Triple-pre (λ g ss h. h.0) (callback_on-Triple registry c there)
  run_callback-Triple idled =
      Triple-post (idled-Triple os root works (IsWatching l) (IsWatching-stable l))
        (λ _ g ss h. (h.0, h.2))
  run_callback-Triple resumed =
      Triple-value (λ g. g.monitoring_started)
        λ b.
          Triple-post
            (Triple-pre (λ g ss h. (h.0.0, h.1, h.0.1))
              (resumed-Triple os root works (IsWatching l) (IsWatching-stable l) b))
            (λ _ g ss h. (h.0, h.2))

  run_callbacks-Triple :
      (cs : List Callback)
      → Triple (IsEndCode os root) (Watched root l) (run_callbacks os cs) (λ _. Watched root l)
  unfolding run_callbacks
  run_callbacks-Triple [] = Triple-pure _ (λ g ss h. h)
  run_callbacks-Triple (c ∷ rest) =
      Triple-bind (run_callback-Triple c) (λ _. run_callbacks-Triple rest)

  pub dispatch_by-Triple :
      (display : Option ℕ) (answer : List Event → Dispatched)
      → is_null display ≡ false
      → Triple
          (IsEndCode os root)
          (Watched root l)
          (dispatch_by os display answer)
          (λ _. Watched root l)
  unfolding dispatch_by
  dispatch_by-Triple display answer there =
      quietly os root (call_display-Silent answer display there)
        λ d. Triple-bind (run_callbacks-Triple d.callbacks) (λ _. Triple-pure _ (λ g ss h. h))
