-- ===== src/Hook.antt =====
-- The trampoline hook of src/lib/hook/nx64/hook_impl.cpp.
pub mod Context
pub mod Fix
pub mod Install
pub mod Exec
pub mod Encoded
pub mod Inline
pub mod Machine
pub mod Routine
pub mod Entries
pub mod Size
pub mod Literals
pub mod Jumps
pub mod Branches
pub mod References
pub mod Copied
pub mod Over
pub mod CondWords
pub mod Conditions
pub mod Served
pub mod Patch
pub mod Slots
mod Tests
