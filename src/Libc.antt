-- ===== src/Libc.antt =====
-- What the program uses of the C library's text functions, over the bytes of a string.
pub mod Strtol
pub mod Decimal
pub mod Tokens
