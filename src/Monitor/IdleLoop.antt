-- ===== src/Monitor/IdleLoop.antt =====
-- `run_wayland_idle_event_loop` (main.c). A round of the loop is a chain of stages, each of which goes
-- on with the next one, ends the round (`again`, the source's `continue`) or ends the loop (`done`).
pub mod Locals
pub mod Watching
pub mod Stages
pub mod Round
pub mod Run
pub mod Lifetime
