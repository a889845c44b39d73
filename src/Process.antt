-- ===== src/Process.antt =====
-- process_handling.c: the process table, its descendants, and the signals sent to them.
pub mod Descendants
pub mod Stat
pub mod Table
pub mod Signals
pub mod Exit
pub mod Starting
