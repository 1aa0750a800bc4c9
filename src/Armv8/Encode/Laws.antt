-- ===== src/Armv8/Encode/Laws.antt =====
-- The words that the encoders build, field by field.
pub mod Immediate
pub mod LoadStore
pub mod Registers
