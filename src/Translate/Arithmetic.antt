-- ===== src/Translate/Arithmetic.antt =====
-- sandbox/translate_arithmetic.c: the register-register instructions without multiplication.
pub mod Laws
pub mod Refines
use hyrule.Prelude.{ℕ, false, List, [], ◌∷◌, Option, none, some, ◌==◌, if◌then◌else◌}
use hyrule.Host.Cpu.{Reg, rax, rcx, rdx, rsi, rdi}
use hyrule.Host.Instr.{Alu, add, sub, band, bor, bxor, Shift, shl, shr, sar, Cond, less, below}
use hyrule.Host.Instr.{Instr, alu, alu_imm, shift_cl, cmpl, set_low, movzbl}
use hyrule.Host.Steps.{load_gpr, store_gpr}
use hyrule.Translate.Block.{Decoding, Block}
use hyrule.Translate.Finish.{epilogue}

-- The parameters `rs1 index`, `rs2 index`, `rd index`.
abbrev pub three_indices : Decoding → List ℕ
three_indices dec = dec.rs1_index ∷ dec.rs2_index ∷ dec.rd_index ∷ []

abbrev pub gpr_block : Decoding → List Instr → Block
gpr_block dec code = record { code = code; params = three_indices dec; stops = false }

unfoldable pub riscv_add_translator : Decoding → Block
riscv_add_translator dec =
    gpr_block dec
      (load_gpr 0 rdx rsi (load_gpr 1 rdx rax (alu add rsi rax ∷ store_gpr 2 rdx rax epilogue)))

unfoldable pub riscv_sub_translator : Decoding → Block
riscv_sub_translator dec =
    gpr_block dec
      (load_gpr 0 rdx rax (load_gpr 1 rdx rsi (alu sub rsi rax ∷ store_gpr 2 rdx rax epilogue)))

unfoldable pub riscv_and_translator : Decoding → Block
riscv_and_translator dec =
    gpr_block dec
      (load_gpr 0 rdx rsi (load_gpr 1 rdx rax (alu band rsi rax ∷ store_gpr 2 rdx rax epilogue)))

unfoldable pub riscv_or_translator : Decoding → Block
riscv_or_translator dec =
    gpr_block dec
      (load_gpr 0 rdx rsi (load_gpr 1 rdx rax (alu bor rsi rax ∷ store_gpr 2 rdx rax epilogue)))

unfoldable pub riscv_xor_translator : Decoding → Block
riscv_xor_translator dec =
    gpr_block dec
      (load_gpr 0 rdx rsi (load_gpr 1 rdx rax (alu bxor rsi rax ∷ store_gpr 2 rdx rax epilogue)))

unfoldable pub riscv_slt_translator : Decoding → Block
riscv_slt_translator dec = gpr_block dec (
    alu bxor rcx rcx
    ∷ load_gpr 0 rdx rsi (
        load_gpr 1 rdx rdi
          (cmpl rdi rsi ∷ set_low less rcx ∷ movzbl rcx rcx ∷ store_gpr 2 rdx rcx epilogue)))

unfoldable pub riscv_sltu_translator : Decoding → Block
riscv_sltu_translator dec = gpr_block dec (
    alu bxor rcx rcx
    ∷ load_gpr 0 rdx rsi (
        load_gpr 1 rdx rdi
          (cmpl rdi rsi ∷ set_low below rcx ∷ movzbl rcx rcx ∷ store_gpr 2 rdx rcx epilogue)))

unfoldable pub riscv_sll_translator : Decoding → Block
riscv_sll_translator dec = gpr_block dec (
    load_gpr 0 rdx rax (
      load_gpr 1 rdx rcx (alu_imm band 0x1f rcx ∷ shift_cl shl rax ∷ store_gpr 2 rdx rax epilogue)))

unfoldable pub riscv_srl_translator : Decoding → Block
riscv_srl_translator dec = gpr_block dec (
    load_gpr 0 rdx rax (
      load_gpr 1 rdx rcx (alu_imm band 0x1f rcx ∷ shift_cl shr rax ∷ store_gpr 2 rdx rax epilogue)))

unfoldable pub riscv_sra_translator : Decoding → Block
riscv_sra_translator dec = gpr_block dec (
    load_gpr 0 rdx rax (
      load_gpr 1 rdx rcx (alu_imm band 0x1f rcx ∷ shift_cl sar rax ∷ store_gpr 2 rdx rax epilogue)))

-- `none` is a failed assertion: the process exits.
unfoldable pub riscv_add_sub_translator : Decoding → Option Block
riscv_add_sub_translator dec =
    if dec.funct7 == 0x20
    then some (riscv_sub_translator dec)
    else if dec.funct7 == 0
    then some (riscv_add_translator dec)
    else none

unfoldable pub riscv_srl_sra_translator : Decoding → Option Block
riscv_srl_sra_translator dec =
    if dec.funct7 == 0x20
    then some (riscv_sra_translator dec)
    else if dec.funct7 == 0
    then some (riscv_srl_translator dec)
    else none

-- The table `per_funct3_handlers`, which has all eight entries.
unfoldable pub riscv_arithmetic_class0_entry : Decoding → Option Block
riscv_arithmetic_class0_entry dec =
    if dec.funct3 == 0
    then riscv_add_sub_translator dec
    else if dec.funct3 == 7
    then some (riscv_and_translator dec)
    else if dec.funct3 == 6
    then some (riscv_or_translator dec)
    else if dec.funct3 == 4
    then some (riscv_xor_translator dec)
    else if dec.funct3 == 2
    then some (riscv_slt_translator dec)
    else if dec.funct3 == 3
    then some (riscv_sltu_translator dec)
    else if dec.funct3 == 1
    then some (riscv_sll_translator dec)
    else if dec.funct3 == 5
    then riscv_srl_sra_translator dec
    else none
