-- ===== src/Armv8/Encode.antt =====
-- The instruction classes of src/lib/armv8/instructions: each constructor is the word that it
-- builds, from an empty word by the same `Set` calls in the same order. A `u32`, `u16` or `bool`
-- argument is a number below its modulus; a setter cuts it to its field.
pub mod Arithmetic
pub mod Branches
pub mod LoadStore
pub mod Laws
use zeldar.Base.{ℕ}
use zeldar.Armv8.BitSet.{set_bits}

-- `Instruction(op0)`, the field `MainOp0`.
unfoldable pub instruction : ℕ → ℕ
instruction op0 = set_bits 25 29 op0 0

-- `Op100xInstruction(op0)`: data processing with an immediate.
unfoldable pub op100x_instruction : ℕ → ℕ
unfolding instruction
op100x_instruction op0 = set_bits 23 26 op0 (instruction 0b1000)

-- `Op101xInstruction(op0)`: branches and system instructions.
unfoldable pub op101x_instruction : ℕ → ℕ
unfolding instruction
op101x_instruction op0 = set_bits 29 32 op0 (instruction 0b1010)

-- `Opx101Instruction(op0, op1, op2, op3)`: data processing on registers.
unfoldable pub opx101_instruction : ℕ → ℕ → ℕ → ℕ → ℕ
unfolding instruction
opx101_instruction op0 op1 op2 op3 =
    let set0 = set_bits 30 31 op0 (instruction 0b0101) in
    let set1 = set_bits 28 29 op1 set0 in
    let set2 = set_bits 20 24 op2 set1 in set_bits 10 15 op3 set2

-- `Opx1x0Instruction(op0)`: loads and stores.
unfoldable pub opx1x0_instruction : ℕ → ℕ
unfolding instruction
opx1x0_instruction op0 = set_bits 28 32 op0 (instruction 0b0100)
