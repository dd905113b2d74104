-- ===== src/Ber.antt =====
-- The codec of the basic encoding rules: src/ber_*.c.
pub mod Length
pub mod Tag
pub mod Integer
pub mod Any
pub mod Tagged
pub mod Constructed
pub mod Oid
pub mod Simple
