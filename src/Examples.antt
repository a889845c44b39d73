-- ===== src/Examples.antt =====
-- The theorems at concrete inputs.
mod Kernel
mod Idle
mod Program
mod Processes
mod Polling
mod CommandLines
mod Sessions
mod Timer
