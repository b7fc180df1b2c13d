-- ===== src/Translate/Dispatch/Codes.antt =====
-- The codes of the encodings, as the table of translators reads them.
use hyrule.Prelude.{ℕ, ◌^◌, ◌<◌, ◌≡◌, arith}
use hyrule.Rv
use hyrule.Rv.Encode.{op_funct3, op_funct7, mul_funct3, imm_funct3, imm_field}
use hyrule.Rv.Encode.{imm_bound, branch_funct3, load_funct3, store_funct3}
use hyrule.Translate.Block.{Decoding}
use hyrule.Translate.Arithmetic.{riscv_arithmetic_class0_entry}
use hyrule.Translate.Dispatch.{riscv_arithmetic_entry}

-- The codes have the widths of their fields.
pub branch_funct3-lt : (o : Rv.BranchOp) → branch_funct3 o < 2 ^ 3
unfolding branch_funct3
branch_funct3-lt o = ground arith

pub load_funct3-lt : (o : Rv.LoadOp) → load_funct3 o < 2 ^ 3
unfolding load_funct3
load_funct3-lt o = ground arith

pub store_funct3-lt : (o : Rv.StoreOp) → store_funct3 o < 2 ^ 3
unfolding store_funct3
store_funct3-lt o = ground arith

pub imm_funct3-lt : (o : Rv.ImmOp) → imm_funct3 o < 2 ^ 3
unfolding imm_funct3
imm_funct3-lt o = ground arith

pub op_funct3-lt : (o : Rv.Op) → op_funct3 o < 2 ^ 3
unfolding op_funct3
op_funct3-lt o = ground arith

pub op_funct7-lt : (o : Rv.Op) → op_funct7 o < 2 ^ 7
unfolding op_funct7
op_funct7-lt o = ground arith

pub mul_funct3-lt : (o : Rv.MulOp) → mul_funct3 o < 2 ^ 3
unfolding mul_funct3
mul_funct3-lt o = ground arith

pub imm_field-lt : (o : Rv.ImmOp) (imm : ℕ) → imm < imm_bound o → imm_field o imm < 2 ^ 12
unfolding imm_field imm_bound
imm_field-lt Rv.srai imm h = omega arith
imm_field-lt _ imm h = omega arith

pub arithmetic_class0 :
    (d : Decoding) (o : Rv.Op)
    → d.funct7 ≡ op_funct7 o
    → riscv_arithmetic_entry d ≡ riscv_arithmetic_class0_entry d
unfolding riscv_arithmetic_entry op_funct7
arithmetic_class0 d Rv.sub f7 = rw f7
arithmetic_class0 d _ f7 = rw f7
