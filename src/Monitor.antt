-- ===== src/Monitor.antt =====
-- main.c: deciding when the command runs, and the loops that do so.
pub mod Time
pub mod Invariant
pub mod Signals
pub mod Activity
pub mod X11
pub mod IdleLoop
