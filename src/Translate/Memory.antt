-- ===== src/Translate/Memory.antt =====
-- sandbox/translate_memory_load.c and translate_memory_store.c. The moves of the hart into rdi and of
-- the callee into rax, and the saved context registers, are part of `call`.
pub mod Laws
pub mod Load
pub mod Store
pub mod Calls
use hyrule.Prelude.{ℕ, false, List, ◌∷◌, [], Option, none, some, ◌==◌, if◌then◌else◌}
use hyrule.Word.{sign_extend32}
use hyrule.Host.Cpu.{rax, rdx, rsi}
use hyrule.Host.Instr.{
  Callee, mmu_read8, mmu_read16, mmu_read32, mmu_write8, mmu_write16, mmu_write32,
}
use hyrule.Host.Instr.{
  Instr, alu, alu_imm, add, band, movl_param, shl_imm, addq_r15, movl_store, call,
}
use hyrule.Host.Instr.{movsbl, movzbl, movswl, movzwl, proceed_to_next_instruction, end_instruction}
use hyrule.Host.Steps.{load_gpr, store_gpr}
use hyrule.Translate.Block.{Decoding, Block}
use hyrule.Translate.Finish.{epilogue}

-- The address into esi, the call, the address of the destination register into rdx; `extended` is
-- what is done to eax then.
abbrev pub load_block : Decoding → Callee → List Instr → Block
load_block dec callee extended = record {
  code = load_gpr 1 rdx rsi (
      movl_param 0 rdx
      ∷ alu add rdx rsi
      ∷ call callee
      ∷ movl_param 2 rdx
      ∷ shl_imm 2 rdx
      ∷ addq_r15 rdx
      ∷ extended);
  params = sign_extend32 dec.imm 11 ∷ dec.rs1_index ∷ dec.rd_index ∷ [];
  stops = false;
}

unfoldable pub riscv_lb_translator : Decoding → Block
riscv_lb_translator dec = load_block dec mmu_read8 (movsbl rax rax ∷ movl_store rax rdx ∷ epilogue)

unfoldable pub riscv_lbu_translator : Decoding → Block
riscv_lbu_translator dec = load_block dec mmu_read8 (movzbl rax rax ∷ movl_store rax rdx ∷ epilogue)

unfoldable pub riscv_lh_translator : Decoding → Block
riscv_lh_translator dec = load_block dec mmu_read16 (movswl rax rax ∷ movl_store rax rdx ∷ epilogue)

unfoldable pub riscv_lhu_translator : Decoding → Block
riscv_lhu_translator dec =
    load_block dec mmu_read16 (movzwl rax rax ∷ movl_store rax rdx ∷ epilogue)

unfoldable pub riscv_lw_translator : Decoding → Block
riscv_lw_translator dec = load_block dec mmu_read32 (movl_store rax rdx ∷ epilogue)

-- `none`: the handler is NULL and the assertion fails.
unfoldable pub riscv_memory_load_entry : Decoding → Option Block
riscv_memory_load_entry dec =
    if dec.funct3 == 2
    then some (riscv_lw_translator dec)
    else if dec.funct3 == 1
    then some (riscv_lh_translator dec)
    else if dec.funct3 == 5
    then some (riscv_lhu_translator dec)
    else if dec.funct3 == 0
    then some (riscv_lb_translator dec)
    else if dec.funct3 == 4
    then some (riscv_lbu_translator dec)
    else none

-- The address into esi and the value into edx; `write` cuts the value and calls. A store writes no
-- register, so register 0 is not cleared.
abbrev pub store_block : Decoding → List Instr → Block
store_block dec write = record {
  code = load_gpr 1 rdx rsi (movl_param 0 rdx ∷ alu add rdx rsi ∷ load_gpr 2 rdx rdx write);
  params = sign_extend32 dec.imm 11 ∷ dec.rs1_index ∷ dec.rs2_index ∷ [];
  stops = false;
}

abbrev pub store_epilogue : List Instr
store_epilogue = proceed_to_next_instruction ∷ end_instruction ∷ []

unfoldable pub riscv_sb_translator : Decoding → Block
riscv_sb_translator dec = store_block dec (alu_imm band 0xff rdx ∷ call mmu_write8 ∷ store_epilogue)

unfoldable pub riscv_sh_translator : Decoding → Block
riscv_sh_translator dec =
    store_block dec (alu_imm band 0xffff rdx ∷ call mmu_write16 ∷ store_epilogue)

unfoldable pub riscv_sw_translator : Decoding → Block
riscv_sw_translator dec = store_block dec (call mmu_write32 ∷ store_epilogue)

unfoldable pub riscv_memory_store_entry : Decoding → Option Block
riscv_memory_store_entry dec =
    if dec.funct3 == 0
    then some (riscv_sb_translator dec)
    else if dec.funct3 == 1
    then some (riscv_sh_translator dec)
    else if dec.funct3 == 2
    then some (riscv_sw_translator dec)
    else none
