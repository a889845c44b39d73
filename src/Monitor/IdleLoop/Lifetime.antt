-- ===== src/Monitor/IdleLoop/Lifetime.antt =====
-- The life of the Wayland objects around the event loop.
use runwhenidle.Prelude.{ℕ, ◌≡◌, ◌∙◌}
use runwhenidle.Prelude.Int.{ℤ}
use runwhenidle.System.{Os, State, Wayland, Outcome, value, exited, crashed, out_of_fuel, calls}
use runwhenidle.Environment.Files.{Files}
use runwhenidle.Environment.Session.{User}
use runwhenidle.Wayland.{try_monitor_wayland_idle_notify}
use runwhenidle.Wayland.Objects.{Objects, nothing, alive, IsOrderly, pointers}
use runwhenidle.Wayland.Lives.{After}
use runwhenidle.Wayland.Orderly.{Matches}
use runwhenidle.Wayland.LifeCycle.{monitor-Lives}
use runwhenidle.Monitor.IdleLoop.Run.{run_wayland_idle_event_loop}
use runwhenidle.Monitor.IdleLoop.Run.Orderly.{event_loop-Safe}

abbrev Emptied : ℤ → Wayland → Objects → Type 0
Emptied r = Matches (λ w. pointers w ≡ nothing)

always-IsOrderly : (o : Outcome ℤ) (t : State) → After Emptied o t → IsOrderly (calls t.trace)
always-IsOrderly (value r) t h = h.0
always-IsOrderly (exited c) t h = h
always-IsOrderly crashed t h = h
always-IsOrderly out_of_fuel t h = h

no_object_left :
    (o : Outcome ℤ) (t : State)
    → After Emptied o t
    → (r : ℤ) → o ≡ value r
    → (alive (calls t.trace) ≡ nothing) × (pointers t.wayland ≡ nothing)
no_object_left (value a) t h r e = (h.1.0 ∙ h.1.1, h.1.1)
no_object_left (exited c) t h r e = cc
no_object_left crashed t h r e = cc
no_object_left out_of_fuel t h r e = cc

-- Whatever the kernel, the library and the compositor answer, and with no object alive and no pointer
-- set before: however the Wayland session with its event loop ends, in the middle of the program
-- too, each call of the library was allowed when it was made, so that nothing was created while
-- another of its kind lived, nothing was used or destroyed but what lived, and the display was
-- disconnected last. Where it returns, every object has been destroyed and no pointer is set.
pub wayland_objects_released :
    (os : Os) (files : Files) (user : User) (rounds retries : ℕ) (s : State)
    → IsOrderly (calls s.trace)
    → alive (calls s.trace) ≡ nothing
    → pointers s.wayland ≡ nothing
    → IsOrderly (
        calls
          (try_monitor_wayland_idle_notify os files user
            (run_wayland_idle_event_loop os rounds retries)
            s).1.trace)
      × ((r : ℤ)
          → (try_monitor_wayland_idle_notify os files user
              (run_wayland_idle_event_loop os rounds retries)
              s).0
            ≡ value r
          → (alive (
                calls
                  (try_monitor_wayland_idle_notify os files user
                    (run_wayland_idle_event_loop os rounds retries)
                    s).1.trace)
              ≡ nothing)
            × (pointers
                  (try_monitor_wayland_idle_notify os files user
                    (run_wayland_idle_event_loop os rounds retries)
                    s).1.globals.wayland
                ≡ nothing))
wayland_objects_released os files user rounds retries s orderly none_alive none_set =
    let run =
      try_monitor_wayland_idle_notify os files user (run_wayland_idle_event_loop os rounds retries)
        s in
    let h =
      (monitor-Lives os files user (run_wayland_idle_event_loop os rounds retries)
          (λ d. event_loop-Safe os d rounds retries)).run
        s orderly (none_alive, none_set) in
    (always-IsOrderly run.0 run.1 h, no_object_left run.0 run.1 h)
