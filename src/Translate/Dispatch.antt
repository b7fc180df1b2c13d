-- ===== src/Translate/Dispatch.antt =====
-- sandbox/translation.c: the table `translators` that `translation_init` fills, the entry of the
-- arithmetic instructions, and the translation of one fetched word, as in `prefetch_one_instruction`.
pub mod Codes
pub mod Table
pub mod Control
pub mod Data
pub mod Refines
pub mod Invariant
use hyrule.Prelude.{ℕ, Option, none, some, ◌==◌, if◌then◌else◌, bit_and}
use hyrule.Translate.Block.{Decoding, Block, encoding_type_u, encoding_type_uj, encoding_type_i}
use hyrule.Translate.Block.{encoding_type_s, encoding_type_b, encoding_type_r}
use hyrule.Translate.Decode.{instruction_decoding_per_type}
use hyrule.Translate.Arithmetic.{riscv_arithmetic_class0_entry}
use hyrule.Translate.MulDiv.{riscv_mul_div_entry}
use hyrule.Translate.Immediate.{riscv_immediate_entry}
use hyrule.Translate.Branch.{riscv_branch_entry}
use hyrule.Translate.Memory.{riscv_memory_load_entry, riscv_memory_store_entry}
use hyrule.Translate.Jump.{riscv_lui_translator, riscv_auipc_translator, riscv_jal_translator}
use hyrule.Translate.Jump.{riscv_jalr_translator}

-- The entries of translate_fence.c, translate_privileged_instr.c and translate_amo.c: from the
-- address and the word of an instruction to its block.
pub record OtherTranslators : Type 0 where
  pub fence : ℕ → ℕ → Option Block
  pub supervisor_level : ℕ → ℕ → Option Block
  pub amo : ℕ → ℕ → Option Block

-- The second test is an assertion.
unfoldable pub riscv_arithmetic_entry : Decoding → Option Block
riscv_arithmetic_entry dec =
    if bit_and dec.funct7 0x3 == 0
    then riscv_arithmetic_class0_entry dec
    else if bit_and dec.funct7 0x3 == 1
    then riscv_mul_div_entry dec
    else none

-- `none` is a word that no translator takes, or a failed assertion: the process exits.
unfoldable pub translate_as : OtherTranslators → ℕ → ℕ → ℕ → Option Block
translate_as others opcode pc intrs =
    if opcode == 0x37
    then some (riscv_lui_translator (instruction_decoding_per_type encoding_type_u intrs))
    else if opcode == 0x17
    then some (riscv_auipc_translator pc (instruction_decoding_per_type encoding_type_u intrs))
    else if opcode == 0x6f
    then some (riscv_jal_translator pc (instruction_decoding_per_type encoding_type_uj intrs))
    else if opcode == 0x67
    then some (riscv_jalr_translator pc (instruction_decoding_per_type encoding_type_i intrs))
    else if opcode == 0x13
    then riscv_immediate_entry (instruction_decoding_per_type encoding_type_i intrs)
    else if opcode == 0x23
    then riscv_memory_store_entry (instruction_decoding_per_type encoding_type_s intrs)
    else if opcode == 0x03
    then riscv_memory_load_entry (instruction_decoding_per_type encoding_type_i intrs)
    else if opcode == 0x63
    then riscv_branch_entry pc (instruction_decoding_per_type encoding_type_b intrs)
    else if opcode == 0x33
    then riscv_arithmetic_entry (instruction_decoding_per_type encoding_type_r intrs)
    else if opcode == 0x0f
    then others.fence pc intrs
    else if opcode == 0x73
    then others.supervisor_level pc intrs
    else if opcode == 0x2f
    then others.amo pc intrs
    else none

unfoldable pub translate : OtherTranslators → ℕ → ℕ → Option Block
translate others pc intrs = translate_as others (bit_and intrs 0x7f) pc intrs
