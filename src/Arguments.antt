-- ===== src/Arguments.antt =====
-- The command line (arguments_parsing.c).
pub mod Usage
pub mod Remaining
pub mod Options
pub mod Parse
