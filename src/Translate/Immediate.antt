-- ===== src/Translate/Immediate.antt =====
-- sandbox/translate_arithmetic_immediate.c: the register-immediate instructions.
pub mod Laws
pub mod Refines
use hyrule.Prelude.{ℕ, false, ◌^◌, List, ◌∷◌, [], Option, none, some, ◌==◌, if◌then◌else◌, bit_and}
use hyrule.Word.{sign_extend32}
use hyrule.Host.Cpu.{rax, rcx, rdx}
use hyrule.Host.Instr.{add, band, bor, bxor, shl, shr, sar, less, below}
use hyrule.Host.Instr.{Instr, alu, alu_imm, shift_cl, cmpl_param, set_low, movzbl, movl_param}
use hyrule.Host.Steps.{load_gpr, store_gpr}
use hyrule.Translate.Block.{Decoding, Block}
use hyrule.Translate.Finish.{epilogue}

-- The parameters `imm: signed`, `rs1 index`, `rd index`.
abbrev pub immediate_block : Decoding → ℕ → List Instr → Block
immediate_block dec imm code = record {
  code = code;
  params = imm ∷ dec.rs1_index ∷ dec.rd_index ∷ [];
  stops = false;
}

abbrev pub signed_imm : Decoding → ℕ
signed_imm dec = sign_extend32 dec.imm 11

unfoldable pub riscv_addi_translator : Decoding → Block
riscv_addi_translator dec =
    immediate_block dec (signed_imm dec)
      (load_gpr 1 rdx rax (movl_param 0 rdx ∷ alu add rdx rax ∷ store_gpr 2 rdx rax epilogue))

unfoldable pub riscv_stli_translator : Decoding → Block
riscv_stli_translator dec = immediate_block dec (signed_imm dec) (
    alu bxor rcx rcx
    ∷ load_gpr 1 rdx rax
        (cmpl_param 0 rax ∷ set_low less rcx ∷ movzbl rcx rcx ∷ store_gpr 2 rdx rcx epilogue))

unfoldable pub riscv_stliu_translator : Decoding → Block
riscv_stliu_translator dec = immediate_block dec (signed_imm dec) (
    alu bxor rcx rcx
    ∷ load_gpr 1 rdx rax
        (cmpl_param 0 rax ∷ set_low below rcx ∷ movzbl rcx rcx ∷ store_gpr 2 rdx rcx epilogue))

unfoldable pub riscv_xori_translator : Decoding → Block
riscv_xori_translator dec = immediate_block dec (signed_imm dec) (
    alu bxor rcx rcx
    ∷ load_gpr 1 rdx rax (movl_param 0 rdx ∷ alu bxor rdx rax ∷ store_gpr 2 rdx rax epilogue))

unfoldable pub riscv_ori_translator : Decoding → Block
riscv_ori_translator dec = immediate_block dec (signed_imm dec) (
    alu bxor rcx rcx
    ∷ load_gpr 1 rdx rax (movl_param 0 rdx ∷ alu bor rdx rax ∷ store_gpr 2 rdx rax epilogue))

unfoldable pub riscv_andi_translator : Decoding → Block
riscv_andi_translator dec = immediate_block dec (signed_imm dec) (
    alu bxor rcx rcx
    ∷ load_gpr 1 rdx rax (movl_param 0 rdx ∷ alu band rdx rax ∷ store_gpr 2 rdx rax epilogue))

unfoldable pub riscv_slli_translator : Decoding → Block
riscv_slli_translator dec = immediate_block dec dec.imm (
    alu bxor rcx rcx
    ∷ load_gpr 1 rdx rax (
        movl_param 0 rcx ∷ alu_imm band 0x1f rcx ∷ shift_cl shl rax ∷ store_gpr 2 rdx rax epilogue))

-- The two branches of `riscv_right_shift_translator`.
unfoldable pub srli_block : Decoding → Block
srli_block dec = immediate_block dec dec.imm (
    alu bxor rcx rcx
    ∷ load_gpr 1 rdx rax (
        movl_param 0 rcx ∷ alu_imm band 0x1f rcx ∷ shift_cl shr rax ∷ store_gpr 2 rdx rax epilogue))

unfoldable pub srai_block : Decoding → Block
srai_block dec = immediate_block dec dec.imm (
    alu bxor rcx rcx
    ∷ load_gpr 1 rdx rax (
        movl_param 0 rcx ∷ alu_imm band 0x1f rcx ∷ shift_cl sar rax ∷ store_gpr 2 rdx rax epilogue))

unfoldable pub riscv_right_shift_translator : Decoding → Block
riscv_right_shift_translator dec =
    if bit_and dec.imm 0x400 == 0 then srli_block dec else srai_block dec

unfoldable pub riscv_immediate_entry : Decoding → Option Block
riscv_immediate_entry dec =
    if dec.funct3 == 0
    then some (riscv_addi_translator dec)
    else if dec.funct3 == 1
    then some (riscv_slli_translator dec)
    else if dec.funct3 == 2
    then some (riscv_stli_translator dec)
    else if dec.funct3 == 3
    then some (riscv_stliu_translator dec)
    else if dec.funct3 == 4
    then some (riscv_xori_translator dec)
    else if dec.funct3 == 5
    then some (riscv_right_shift_translator dec)
    else if dec.funct3 == 6
    then some (riscv_ori_translator dec)
    else if dec.funct3 == 7
    then some (riscv_andi_translator dec)
    else none
