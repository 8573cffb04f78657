-- ===== src/Field/Gf256.antt =====
-- `Gf256` of src/field.rs: GF(256) in the polynomial basis modulo x^8 + x^4 + x^3 + x + 1.
pub mod Rounds
pub mod Bilinear
pub mod Table
pub mod Element
pub mod Laws
pub mod Inverse
