-- ===== src/Hook/Routine.antt =====
-- The common routine of the inline hooks, src/lib/hook/nx64/inline_asm.s, instruction by instruction.
pub mod Decoded
pub mod Frame
pub mod Context
pub mod Halves
pub mod Called
pub mod Hooked
mod Tests
use zeldar.Base.{List, [], ◌∷◌, ◌++◌}
use zeldar.Hook.Machine.{Inst, sub_sp, add_sp, stp, ldp, mov, mov_sp, ldr, blr, ret}

unfoldable pub backup_registers : List Inst
backup_registers =
    sub_sp 0x100
    ∷ stp 0 1 0x00
    ∷ stp 2 3 0x10
    ∷ stp 4 5 0x20
    ∷ stp 6 7 0x30
    ∷ stp 8 9 0x40
    ∷ stp 10 11 0x50
    ∷ stp 12 13 0x60
    ∷ stp 14 15 0x70
    ∷ stp 16 17 0x80
    ∷ stp 18 19 0x90
    ∷ stp 20 21 0xa0
    ∷ stp 22 23 0xb0
    ∷ stp 24 25 0xc0
    ∷ stp 26 27 0xd0
    ∷ stp 28 29 0xe0
    ∷ []

unfoldable pub recover_registers : List Inst
recover_registers =
    ldp 0 1 0x00
    ∷ ldp 2 3 0x10
    ∷ ldp 4 5 0x20
    ∷ ldp 6 7 0x30
    ∷ ldp 8 9 0x40
    ∷ ldp 10 11 0x50
    ∷ ldp 12 13 0x60
    ∷ ldp 14 15 0x70
    ∷ ldp 16 17 0x80
    ∷ ldp 18 19 0x90
    ∷ ldp 20 21 0xa0
    ∷ ldp 22 23 0xb0
    ∷ ldp 24 25 0xc0
    ∷ ldp 26 27 0xd0
    ∷ ldp 28 29 0xe0
    ∷ add_sp 0x100
    ∷ []

-- `exl_inline_hook_impl`: LR points 8 bytes before the callback of the entry.
unfoldable pub inline_hook_impl : List Inst
unfolding backup_registers recover_registers
inline_hook_impl =
    backup_registers
    ++ mov 19 30 ∷ mov_sp 0 ∷ ldr 20 19 0x8 ∷ blr 20 ∷ mov 30 19 ∷ recover_registers
    ++ ret ∷ []
