-- ===== src/Field/Gf16.antt =====
-- `Gf16` of src/field.rs: GF(16) in the polynomial basis modulo x^4 + x + 1.
pub mod Rounds
pub mod Table
pub mod Element
pub mod Laws
pub mod Embed
