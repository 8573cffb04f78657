-- ===== src/Field.antt =====
-- src/field.rs: arithmetic in GF(16), GF(256) and GF(256^2), and the packed encoding.
pub mod Gf256
pub mod Ring
pub mod Gf16
pub mod Gf256x2
pub mod Packing
pub mod Axioms
mod Tests
