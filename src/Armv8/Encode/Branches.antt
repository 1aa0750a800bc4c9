-- ===== src/Armv8/Encode/Branches.antt =====
-- The classes of instructions/op101x: hints and unconditional branches.
use zeldar.Base.{ℕ, ◌/◌}
use zeldar.Armv8.BitSet.{set_bits}
use zeldar.Armv8.Register.{Register}
use zeldar.Armv8.Encode.{op101x_instruction}

-- `Hints()`.
unfoldable pub hints : ℕ
unfolding op101x_instruction
hints =
    let set_op1 = set_bits 12 26 0b01000000110010 (op101x_instruction 0b110) in
    set_bits 0 5 0b11111 set_op1

unfoldable pub nop : ℕ
unfolding hints
nop = let set_crm = set_bits 8 12 0b0000 hints in set_bits 5 8 0b000 set_crm

-- `UnconditionalBranchImmediate(op, relative_address)`.
unfoldable pub unconditional_branch_immediate : ℕ → ℕ → ℕ
unfolding op101x_instruction
unconditional_branch_immediate op relative_address =
    let set_op = set_bits 31 32 op (op101x_instruction 0b000) in
    set_bits 0 26 (relative_address / 4) set_op

unfoldable pub branch : ℕ → ℕ
unfolding unconditional_branch_immediate
branch relative_address = unconditional_branch_immediate 0 relative_address

unfoldable pub branch_link : ℕ → ℕ
unfolding unconditional_branch_immediate
branch_link relative_address = unconditional_branch_immediate 1 relative_address

-- `UnconditionalBranchRegister(opc, op2)`.
unfoldable pub unconditional_branch_register : ℕ → ℕ → ℕ
unfolding op101x_instruction
unconditional_branch_register opc op2 =
    let set_op1 = set_bits 12 26 0b10000000000000 (op101x_instruction 0b110) in
    let set_opc = set_bits 21 25 opc set_op1 in set_bits 16 21 op2 set_opc

unfoldable pub branch_register : Register → ℕ
unfolding unconditional_branch_register
branch_register rn =
    let set_op3 = set_bits 10 16 0b000000 (unconditional_branch_register 0b0000 0b11111) in
    let set_rn = set_bits 5 10 rn.index set_op3 in set_bits 0 5 0b00000 set_rn

unfoldable pub ret : Register → ℕ
unfolding unconditional_branch_register
ret rn =
    let set_op3 = set_bits 10 16 0b000000 (unconditional_branch_register 0b0010 0b11111) in
    let set_rn = set_bits 5 10 rn.index set_op3 in set_bits 0 5 0b00000 set_rn
