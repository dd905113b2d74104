-- ===== src/Tests.antt =====
-- The theorems of the other modules at concrete inputs.
pub mod Streams
pub mod Text
mod Json
mod Requests
mod Constructed
mod Pqf
