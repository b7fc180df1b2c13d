-- ===== src/Translate/Branch.antt =====
-- sandbox/translate_branch.c: the conditional branches. `pc` is `instruction_linear_address`.
pub mod Laws
pub mod Refines
use hyrule.Prelude.{
  ℕ, true, ◌+◌, ◌*◌, ◌%◌, ◌^◌, List, ◌∷◌, [], Option, none, some, ◌==◌, if◌then◌else◌,
}
use hyrule.Word.{sign_extend32}
use hyrule.Host.Cpu.{Reg, rdx, rsi, rdi}
use hyrule.Host.Instr.{Cond, equal, not_equal, less, greater_equal, below, above_equal, add}
use hyrule.Host.Instr.{Instr, load_pc, store_pc, alu_imm, cmpl, jcc, movl_param, label, trap_to_vmm}
use hyrule.Host.Steps.{load_gpr}
use hyrule.Translate.Block.{Decoding, Block}

-- `instruction_linear_address + sign_extend32(dec->imm << 1, 12)` on 32 bits
abbrev pub branch_taken_target : ℕ → Decoding → ℕ
branch_taken_target pc dec = (pc + sign_extend32 (dec.imm * 2 % 2 ^ 32) 12) % 2 ^ 32

-- From the jump over the taken target to the end of the block. `edx` holds the new pc.
abbrev pub branch_end : Cond → List Instr
branch_end c = jcc c 1 ∷ movl_param 2 rdx ∷ label 1 ∷ store_pc rdx ∷ trap_to_vmm ∷ []

-- The blocks differ in the order of the comparison, `cmpl src, dst`, and in the jump.
abbrev pub branch_block : ℕ → Decoding → Reg → Reg → Cond → Block
branch_block pc dec src dst c = record {
  code =
      load_gpr 0 rdx rsi
        (load_gpr 1 rdx rdi (load_pc rdx ∷ alu_imm add 4 rdx ∷ cmpl src dst ∷ branch_end c));
  params = dec.rs1_index ∷ dec.rs2_index ∷ branch_taken_target pc dec ∷ [];
  stops = true;
}

unfoldable pub riscv_beq_translator : ℕ → Decoding → Block
riscv_beq_translator pc dec = branch_block pc dec rsi rdi not_equal

unfoldable pub riscv_bne_translator : ℕ → Decoding → Block
riscv_bne_translator pc dec = branch_block pc dec rsi rdi equal

unfoldable pub riscv_blt_translator : ℕ → Decoding → Block
riscv_blt_translator pc dec = branch_block pc dec rdi rsi greater_equal

unfoldable pub riscv_bltu_translator : ℕ → Decoding → Block
riscv_bltu_translator pc dec = branch_block pc dec rdi rsi above_equal

unfoldable pub riscv_bge_translator : ℕ → Decoding → Block
riscv_bge_translator pc dec = branch_block pc dec rdi rsi less

unfoldable pub riscv_bgeu_translator : ℕ → Decoding → Block
riscv_bgeu_translator pc dec = branch_block pc dec rdi rsi below

-- `none`: the handler is NULL and the assertion fails.
unfoldable pub riscv_branch_entry : ℕ → Decoding → Option Block
riscv_branch_entry pc dec =
    if dec.funct3 == 0
    then some (riscv_beq_translator pc dec)
    else if dec.funct3 == 1
    then some (riscv_bne_translator pc dec)
    else if dec.funct3 == 4
    then some (riscv_blt_translator pc dec)
    else if dec.funct3 == 6
    then some (riscv_bltu_translator pc dec)
    else if dec.funct3 == 5
    then some (riscv_bge_translator pc dec)
    else if dec.funct3 == 7
    then some (riscv_bgeu_translator pc dec)
    else none
