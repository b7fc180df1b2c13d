-- ===== src/Translate/MulDiv.antt =====
-- sandbox/translate_multiplication_and_division.c.
pub mod Laws
pub mod Refines
pub mod Divide
use hyrule.Prelude.{ℕ, false, List, ◌∷◌, [], Option, none, some, ◌==◌, if◌then◌else◌}
use hyrule.Host.Cpu.{Reg, rax, rbx, rdx, rsi, rdi, r8}
use hyrule.Host.Instr.{Instr, imull, imulq, mull, divl, idivl, movsxd, shrq_imm, movl, movl_imm}
use hyrule.Host.Instr.{cmpl_imm, jcc, jmp, label, not_equal, alu, bxor}
use hyrule.Host.Steps.{load_gpr, store_gpr}
use hyrule.Translate.Block.{Decoding, Block}
use hyrule.Translate.Finish.{epilogue}
use hyrule.Translate.Arithmetic.{gpr_block}

unfoldable pub riscv_mul_translator : Decoding → Block
riscv_mul_translator dec =
    gpr_block dec
      (load_gpr 0 rsi rdx (load_gpr 1 rsi rax (imull rdx ∷ store_gpr 2 rdi rax epilogue)))

unfoldable pub riscv_mulh_translator : Decoding → Block
riscv_mulh_translator dec =
    gpr_block dec
      (load_gpr 0 rsi rdx (load_gpr 1 rsi rax (imull rdx ∷ store_gpr 2 rdi rdx epilogue)))

unfoldable pub riscv_mulhu_translator : Decoding → Block
riscv_mulhu_translator dec =
    gpr_block dec
      (load_gpr 0 rsi rdx (load_gpr 1 rsi rax (mull rdx ∷ store_gpr 2 rdi rdx epilogue)))

unfoldable pub riscv_mulhsu_translator : Decoding → Block
riscv_mulhsu_translator dec = gpr_block dec (
    load_gpr 0 rsi rax (
      movsxd rax rax
      ∷ load_gpr 1 rsi rdx (imulq rdx ∷ shrq_imm 32 rax ∷ store_gpr 2 rdi rax epilogue)))

-- The dividend's sign fills edx.
abbrev pub sign_into_edx : List Instr → List Instr
sign_into_edx rest = movsxd rax rdx ∷ shrq_imm 32 rdx ∷ rest

-- The divisor is compared with zero; `divide` stands behind label 1.
abbrev pub unless_zero : Instr → List Instr → List Instr
unless_zero divide rest =
    movl rbx r8
    ∷ cmpl_imm 0 r8
    ∷ jcc not_equal 1
    ∷ movl_imm 0xffffffff rax
    ∷ jmp 2
    ∷ label 1
    ∷ divide
    ∷ label 2
    ∷ rest

unfoldable pub riscv_div_translator : Decoding → Block
riscv_div_translator dec = gpr_block dec (
    load_gpr 0 rsi rax
      (sign_into_edx (load_gpr 1 rsi rbx (unless_zero (idivl rbx) (store_gpr 2 rdi rax epilogue)))))

unfoldable pub riscv_rem_translator : Decoding → Block
riscv_rem_translator dec = gpr_block dec (
    load_gpr 0 rsi rax
      (sign_into_edx (load_gpr 1 rsi rbx (idivl rbx ∷ store_gpr 2 rdi rdx epilogue))))

unfoldable pub riscv_divu_translator : Decoding → Block
riscv_divu_translator dec = gpr_block dec (
    load_gpr 0 rsi rax (
      alu bxor rdx rdx
      ∷ load_gpr 1 rsi rbx (unless_zero (divl rbx) (store_gpr 2 rdi rax epilogue))))

unfoldable pub riscv_remu_translator : Decoding → Block
riscv_remu_translator dec = gpr_block dec (
    load_gpr 0 rsi rax
      (alu bxor rdx rdx ∷ load_gpr 1 rsi rbx (divl rbx ∷ store_gpr 2 rdi rdx epilogue)))

-- The table `per_funct3_handlers`.
unfoldable pub riscv_mul_div_entry : Decoding → Option Block
riscv_mul_div_entry dec =
    if dec.funct3 == 0
    then some (riscv_mul_translator dec)
    else if dec.funct3 == 1
    then some (riscv_mulh_translator dec)
    else if dec.funct3 == 3
    then some (riscv_mulhu_translator dec)
    else if dec.funct3 == 2
    then some (riscv_mulhsu_translator dec)
    else if dec.funct3 == 4
    then some (riscv_div_translator dec)
    else if dec.funct3 == 5
    then some (riscv_divu_translator dec)
    else if dec.funct3 == 6
    then some (riscv_rem_translator dec)
    else if dec.funct3 == 7
    then some (riscv_remu_translator dec)
    else none
