-- ===== src/Environment.antt =====
-- Finding the graphical session (environment_guessing.c, file_utils.c, string_utils.c).
pub mod Files
pub mod Wayland
pub mod Display
pub mod Session
