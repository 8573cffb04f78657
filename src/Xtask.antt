-- ===== src/Xtask.antt =====
-- src/xtask/src/main.rs: the task runner that compares the library with the known answers of the
-- reference implementation.
pub mod Hex
pub mod Drbg
