-- ===== src/Rv/Encode.antt =====
-- The encodings of the RISC-V manual.
use hyrule.Prelude.{ℕ, ◌+◌, ◌^◌, ◌<◌}
use hyrule.Rv.Format.{format_u, format_uj, format_i, format_s, format_b, format_r}
use hyrule.Rv.{Op, add, sub, sll, slt, sltu, xor, srl, sra, or, and}
use hyrule.Rv.{MulOp, mul, mulh, mulhsu, mulhu, div, divu, rem, remu}
use hyrule.Rv.{ImmOp, addi, slti, sltiu, xori, ori, andi, slli, srli, srai}
use hyrule.Rv.{BranchOp, beq, bne, blt, bge, bltu, bgeu, LoadOp, lb, lh, lw, lbu, lhu}
use hyrule.Rv.{StoreOp, sb, sh, sw, Instr, lui, auipc, jal, jalr, branch, load, store, op_imm, op}
use hyrule.Rv.{mul_div}

unfoldable pub op_funct3 : Op → ℕ
op_funct3 add = 0
op_funct3 sub = 0
op_funct3 sll = 1
op_funct3 slt = 2
op_funct3 sltu = 3
op_funct3 xor = 4
op_funct3 srl = 5
op_funct3 sra = 5
op_funct3 or = 6
op_funct3 and = 7

unfoldable pub op_funct7 : Op → ℕ
op_funct7 sub = 0x20
op_funct7 sra = 0x20
op_funct7 _ = 0

unfoldable pub mul_funct3 : MulOp → ℕ
mul_funct3 mul = 0
mul_funct3 mulh = 1
mul_funct3 mulhsu = 2
mul_funct3 mulhu = 3
mul_funct3 div = 4
mul_funct3 divu = 5
mul_funct3 rem = 6
mul_funct3 remu = 7

unfoldable pub imm_funct3 : ImmOp → ℕ
imm_funct3 addi = 0
imm_funct3 slli = 1
imm_funct3 slti = 2
imm_funct3 sltiu = 3
imm_funct3 xori = 4
imm_funct3 srli = 5
imm_funct3 srai = 5
imm_funct3 ori = 6
imm_funct3 andi = 7

-- The bits above a shift amount: 0100000 for `srai`, zero for the others.
unfoldable pub imm_field : ImmOp → ℕ → ℕ
imm_field srai imm = 0x400 + imm
imm_field _ imm = imm

unfoldable pub imm_bound : ImmOp → ℕ
imm_bound slli = 2 ^ 5
imm_bound srli = 2 ^ 5
imm_bound srai = 2 ^ 5
imm_bound _ = 2 ^ 12

unfoldable pub branch_funct3 : BranchOp → ℕ
branch_funct3 beq = 0
branch_funct3 bne = 1
branch_funct3 blt = 4
branch_funct3 bge = 5
branch_funct3 bltu = 6
branch_funct3 bgeu = 7

unfoldable pub load_funct3 : LoadOp → ℕ
load_funct3 lb = 0
load_funct3 lh = 1
load_funct3 lw = 2
load_funct3 lbu = 4
load_funct3 lhu = 5

unfoldable pub store_funct3 : StoreOp → ℕ
store_funct3 sb = 0
store_funct3 sh = 1
store_funct3 sw = 2

unfoldable pub encode : Instr → ℕ
encode (lui rd imm) = format_u 0x37 rd imm
encode (auipc rd imm) = format_u 0x17 rd imm
encode (jal rd imm) = format_uj 0x6f rd imm
encode (jalr rd rs1 imm) = format_i 0x67 rd 0 rs1 imm
encode (branch o rs1 rs2 imm) = format_b 0x63 (branch_funct3 o) rs1 rs2 imm
encode (load o rd rs1 imm) = format_i 0x03 rd (load_funct3 o) rs1 imm
encode (store o rs1 rs2 imm) = format_s 0x23 (store_funct3 o) rs1 rs2 imm
encode (op_imm o rd rs1 imm) = format_i 0x13 rd (imm_funct3 o) rs1 (imm_field o imm)
encode (op o rd rs1 rs2) = format_r 0x33 rd (op_funct3 o) rs1 rs2 (op_funct7 o)
encode (mul_div o rd rs1 rs2) = format_r 0x33 rd (mul_funct3 o) rs1 rs2 1

-- The fields have the widths that the formats give them.
unfoldable pub IsInstr : Instr → Type 0
IsInstr (lui rd imm) = (rd < 2 ^ 5) × (imm < 2 ^ 20)
IsInstr (auipc rd imm) = (rd < 2 ^ 5) × (imm < 2 ^ 20)
IsInstr (jal rd imm) = (rd < 2 ^ 5) × (imm < 2 ^ 20)
IsInstr (jalr rd rs1 imm) = (rd < 2 ^ 5) × (rs1 < 2 ^ 5) × (imm < 2 ^ 12)
IsInstr (branch o rs1 rs2 imm) = (rs1 < 2 ^ 5) × (rs2 < 2 ^ 5) × (imm < 2 ^ 12)
IsInstr (load o rd rs1 imm) = (rd < 2 ^ 5) × (rs1 < 2 ^ 5) × (imm < 2 ^ 12)
IsInstr (store o rs1 rs2 imm) = (rs1 < 2 ^ 5) × (rs2 < 2 ^ 5) × (imm < 2 ^ 12)
IsInstr (op_imm o rd rs1 imm) = (rd < 2 ^ 5) × (rs1 < 2 ^ 5) × (imm < imm_bound o)
IsInstr (op o rd rs1 rs2) = (rd < 2 ^ 5) × (rs1 < 2 ^ 5) × (rs2 < 2 ^ 5)
IsInstr (mul_div o rd rs1 rs2) = (rd < 2 ^ 5) × (rs1 < 2 ^ 5) × (rs2 < 2 ^ 5)
