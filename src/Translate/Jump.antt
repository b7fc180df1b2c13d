-- ===== src/Translate/Jump.antt =====
-- sandbox/translate_unconditional_jump_intrs.c, and `lui` and `auipc` of sandbox/translation.c.
-- `pc` is `instruction_linear_address`.
pub mod Laws
use hyrule.Prelude.{ℕ, true, false, ◌+◌, ◌*◌, ◌%◌, ◌^◌, ◌∷◌, []}
use hyrule.Word.{sign_extend32}
use hyrule.Host.Cpu.{rax, rbx, rcx, rdx}
use hyrule.Host.Instr.{add, movl_param, movl_store, shl_imm, addq_r15, alu, btr_zero, store_pc}
use hyrule.Host.Instr.{reset_zero_register, trap_to_vmm}
use hyrule.Host.Steps.{load_gpr}
use hyrule.Translate.Block.{Decoding, Block}
use hyrule.Translate.Finish.{epilogue}

unfoldable pub riscv_lui_translator : Decoding → Block
riscv_lui_translator dec = record {
  code =
      movl_param 0 rax
      ∷ movl_param 1 rdx
      ∷ shl_imm 12 rax
      ∷ shl_imm 2 rdx
      ∷ addq_r15 rdx
      ∷ movl_store rax rdx
      ∷ epilogue;
  params = dec.imm ∷ dec.rd_index ∷ [];
  stops = false;
}

unfoldable pub riscv_auipc_translator : ℕ → Decoding → Block
riscv_auipc_translator pc dec = record {
  code =
      movl_param 1 rdx
      ∷ shl_imm 2 rdx
      ∷ addq_r15 rdx
      ∷ movl_param 0 rax
      ∷ shl_imm 12 rax
      ∷ movl_param 2 rcx
      ∷ alu add rcx rax
      ∷ movl_store rax rdx
      ∷ epilogue;
  params = dec.imm ∷ dec.rd_index ∷ pc ∷ [];
  stops = false;
}

unfoldable pub riscv_jal_translator : ℕ → Decoding → Block
riscv_jal_translator pc dec = record {
  code =
      movl_param 0 rdx
      ∷ shl_imm 2 rdx
      ∷ addq_r15 rdx
      ∷ movl_param 1 rax
      ∷ movl_store rax rdx
      ∷ movl_param 2 rax
      ∷ store_pc rax
      ∷ reset_zero_register
      ∷ trap_to_vmm
      ∷ [];
  params =
      dec.rd_index
      ∷ (pc + 4) % 2 ^ 32
      ∷ (pc + sign_extend32 (dec.imm * 2 % 2 ^ 32) 20) % 2 ^ 32
      ∷ [];
  stops = true;
}

unfoldable pub riscv_jalr_translator : ℕ → Decoding → Block
riscv_jalr_translator pc dec = record {
  code = load_gpr 2 rdx rbx (
      movl_param 3 rax
      ∷ alu add rax rbx
      ∷ btr_zero rbx
      ∷ movl_param 0 rdx
      ∷ shl_imm 2 rdx
      ∷ addq_r15 rdx
      ∷ movl_param 1 rax
      ∷ movl_store rax rdx
      ∷ store_pc rbx
      ∷ reset_zero_register
      ∷ trap_to_vmm
      ∷ []);
  params = dec.rd_index ∷ (pc + 4) % 2 ^ 32 ∷ dec.rs1_index ∷ sign_extend32 dec.imm 11 ∷ [];
  stops = true;
}
