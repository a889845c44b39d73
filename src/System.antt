-- ===== src/System.antt =====
-- The operating system as the program sees it, the program's global variables (main.c,
-- output_settings.h, pause_methods.h), and the effects of C code on both.
pub mod Types
pub mod Effects
pub mod Hoare
pub mod Trace
pub mod Triples
pub mod Loops
pub mod Crashing
pub mod Running
pub mod Calls
unfoldable pub use Types.*
unfoldable pub use Effects.*
pub use Hoare.*
unfoldable pub use Trace.*
pub use Triples.*
pub use Loops.*
pub use Crashing.*
pub use Running.*
unfoldable pub use Calls.*
