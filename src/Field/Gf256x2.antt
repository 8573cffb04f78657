-- ===== src/Field/Gf256x2.antt =====
-- `Gf256x2` of src/field.rs: GF(256^2) as c0 + c1 X modulo X^2 + X + 32.
pub mod Element
pub mod Product
pub mod Laws
pub mod Frobenius
pub mod Inverse
pub mod Lift
