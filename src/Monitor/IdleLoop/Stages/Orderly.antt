-- ===== src/Monitor/IdleLoop/Stages/Orderly.antt =====
-- The stages of a round after poll() make only calls that the Wayland library allows.
use runwhenidle.Prelude.{ℕ, suc, ◌≡◌, String, Option, none, some, List, [], ◌∷◌}
use runwhenidle.Prelude.Int.{ℤ}
use runwhenidle.System.{
  Os, Event, Dispatched, Revents, RegistryCallback, Callback, of_registry, idled, resumed,
}
use runwhenidle.Monitor.Activity.{pause_running_command_on_user_activity}
use runwhenidle.Monitor.Activity.Quiet.{pause_running-Mute, idled-Mute, resumed-Mute}
use runwhenidle.Process.Exit.Quiet.{exit_if-Mute}
use runwhenidle.Monitor.X11.{check_finished}
use runwhenidle.Descriptors.{close_file_descriptor_if_open, consume_timer_file_descriptor_checked}
use runwhenidle.Descriptors.Quiet.{close-Mute, consume-Mute}
use runwhenidle.Wayland.Lives.{Lives, Lives-crash}
use runwhenidle.Wayland.Orderly.{Matches, HasDisplay}
use runwhenidle.Wayland.Safe.{
  Safe, Safe-Mute, Safe-pure, Safe-bind, Safe-on_registry, announced-Lives, safe_rules,
}
use runwhenidle.Monitor.IdleLoop.Locals.{LoopLocals, leave_lost, leave_invalid}
use runwhenidle.Monitor.IdleLoop.Stages.{
  callback_on, run_callback, run_callbacks, dispatch_by, after_dispatch, display_stage,
  fallback_due, fallback_stage, process_exit_stage, after_start, start_monitoring,
  start_monitor_stage,
}

module _ (os : Os) (d : Option ℕ) where
  pub check_finished-Safe : Safe d (check_finished os)
  unfolding check_finished
  check_finished-Safe = Safe-bind _ _ (search safe_rules) (λ pid. Safe-Mute (exit_if-Mute os pid))

  pub leave_lost-Safe :
      (format : String) (errno : ℕ) (l : LoopLocals) → Safe d (leave_lost os format errno l)
  unfolding leave_lost
  leave_lost-Safe format errno l = search safe_rules depth 40

  pub leave_invalid-Safe : (format : String) (l : LoopLocals) → Safe d (leave_invalid os format l)
  unfolding leave_invalid
  leave_invalid-Safe format l = search safe_rules depth 40

  callback_on-Lives :
      (c : RegistryCallback) (p : Option ℕ)
      → Lives
          (λ w o. Matches (HasDisplay d) w o × (w.wayland_registry ≡ p))
          (callback_on os p c)
          (λ _. Matches (HasDisplay d))
  unfolding callback_on
  callback_on-Lives c none = Lives-crash
  callback_on-Lives c (some r) = announced-Lives os r c

  run_callback-Safe : (c : Callback) → Safe d (run_callback os c)
  unfolding run_callback
  run_callback-Safe (of_registry c) = Safe-on_registry _ (callback_on-Lives c)
  run_callback-Safe idled = Safe-Mute (idled-Mute os)
  run_callback-Safe resumed = Safe-Mute (resumed-Mute os)

  run_callbacks-Safe : (cs : List Callback) → Safe d (run_callbacks os cs)
  unfolding run_callbacks
  run_callbacks-Safe [] = Safe-pure tt
  run_callbacks-Safe (c ∷ rest) = Safe-bind _ _ (run_callback-Safe c) (λ _. run_callbacks-Safe rest)

  pub dispatch_by-Safe : (answer : List Event → Dispatched) → Safe d (dispatch_by os d answer)
  unfolding dispatch_by
  dispatch_by-Safe answer = search (safe_rules, run_callbacks-Safe) depth 40

module _ (os : Os) (d : Option ℕ) (retries : ℕ) where
  after_dispatch-Safe :
      (l : LoopLocals) (failed : Option ℕ) → Safe d (after_dispatch os d retries l failed)
  unfolding after_dispatch
  after_dispatch-Safe l none = Safe-pure _
  after_dispatch-Safe l (some errno) = search (safe_rules, leave_lost-Safe)

  display-Safe : (l : LoopLocals) (r : Revents) → Safe d (display_stage os d retries l r)
  unfolding display_stage
  display-Safe l r = search (safe_rules, dispatch_by-Safe, after_dispatch-Safe) depth 40

  consume-Safe :
      (fd : ℤ) (description : String)
      → Safe d (consume_timer_file_descriptor_checked os (suc retries) fd description)
  consume-Safe fd description = Safe-Mute (consume-Mute os (suc retries) fd description)

  fallback_due-Safe : (l : LoopLocals) (r : Revents) → Safe d (fallback_due os d retries l r)
  unfolding fallback_due
  fallback_due-Safe l r =
      search (safe_rules, consume-Safe, check_finished-Safe, display-Safe) depth 40

  fallback-Safe :
      (l : LoopLocals) (rs : ℕ → Revents) (index : Option ℕ)
      → Safe d (fallback_stage os d retries l rs index)
  unfolding fallback_stage
  fallback-Safe l rs none = display-Safe l (rs 0)
  fallback-Safe l rs (some i) =
      search (safe_rules, leave_invalid-Safe, fallback_due-Safe, display-Safe) depth 40

  process_exit-Safe :
      (l : LoopLocals) (rs : ℕ → Revents) (index : Option ℕ)
      → Safe d (process_exit_stage os d retries l rs index)
  unfolding process_exit_stage
  process_exit-Safe l rs none = fallback-Safe l rs _
  process_exit-Safe l rs (some i) =
      search (safe_rules, leave_invalid-Safe, check_finished-Safe, fallback-Safe) depth 40

  pause-Safe : Safe d (pause_running_command_on_user_activity os)
  pause-Safe = Safe-Mute (pause_running-Mute os)

  after_start-Safe :
      (l : LoopLocals) (rs : ℕ → Revents) (result : ℤ)
      → Safe d (after_start os d retries l rs result)
  unfolding after_start
  after_start-Safe l rs result = search (safe_rules, pause-Safe, process_exit-Safe) depth 40

  close-Safe :
      (fd : ℤ) (description : String) → Safe d (close_file_descriptor_if_open os fd description)
  close-Safe fd description = Safe-Mute (close-Mute os fd description)

  start_monitoring-Safe :
      (l : LoopLocals) (rs : ℕ → Revents) → Safe d (start_monitoring os d retries l rs)
  unfolding start_monitoring
  start_monitoring-Safe l rs =
      search (safe_rules, consume-Safe, close-Safe, after_start-Safe) depth 60

  pub start_monitor-Safe :
      (l : LoopLocals) (rs : ℕ → Revents) → Safe d (start_monitor_stage os d retries l rs)
  unfolding start_monitor_stage
  start_monitor-Safe l rs =
      search (safe_rules, leave_invalid-Safe, start_monitoring-Safe, process_exit-Safe) depth 60
