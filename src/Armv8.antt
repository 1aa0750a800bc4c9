-- ===== src/Armv8.antt =====
-- The instruction encoders of lib/armv8.
pub mod BitSet
pub mod Isa
pub mod Register
pub mod Encode
mod Tests
