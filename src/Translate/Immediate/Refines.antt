-- ===== src/Translate/Immediate/Refines.antt =====
-- The dispatch of translate_arithmetic_immediate.c on funct3, and on bit 10 of the immediate.
use hyrule.Prelude.{ℕ, ◌^◌, ◌<◌, ◌+◌, false, ◌≡◌, refl, ap, ◌∙◌, arith, bit_and, ◌==◌}
use hyrule.Prelude.Bits.{bit_and_power}
use hyrule.Host.Instr.{proceed}
use hyrule.Prelude.Int.{div_floor}
use hyrule.Word.{word, signed32}
use hyrule.Rv.{imm_value, op_value, write_reg, advance, reg}
use hyrule.Hart.{IsHart}
use hyrule.Host.Cpu.{Cpu}
use hyrule.Translate.Block.{Decoding, IsDecoding, Host, HostFits, Yields}
use hyrule.Rv.{execute}
use hyrule.Rv
use hyrule.Rv.Encode.{imm_funct3, imm_field, imm_bound}
use hyrule.Translate.Immediate.{riscv_right_shift_translator}
use hyrule.Translate.Immediate.{riscv_immediate_entry, riscv_addi_translator, riscv_andi_translator}
use hyrule.Translate.Immediate.{riscv_ori_translator, riscv_slli_translator, riscv_stli_translator}
use hyrule.Translate.Immediate.{
  riscv_stliu_translator, riscv_xori_translator, srai_block, srli_block,
}
use hyrule.Translate.Immediate.Laws.{
  addi-Computes, slti-Computes, sltiu-Computes, xori-Computes, ori-Computes,
}
use hyrule.Translate.Immediate.Laws.{andi-Computes, slli-Computes, srli-Computes, srai-Computes}

-- `dec->imm & 0x400`
low_shift : (imm : ℕ) → imm < 2 ^ 5 → bit_and imm 0x400 ≡ 0
low_shift imm h = omega (arith, bit_and_power 10 imm)

high_shift : (imm : ℕ) → imm < 2 ^ 5 → bit_and (0x400 + imm) 0x400 ≡ 0x400
high_shift imm h = omega (arith, bit_and_power 10 (0x400 + imm))

imm_value-field : (o : Rv.ImmOp) (x imm : ℕ) → imm_value o x (imm_field o imm) ≡ imm_value o x imm
unfolding imm_value imm_field op_value
imm_value-field Rv.srai x imm = ap (λ (k : ℕ). word (div_floor (signed32 x) (2 ^ k))) (omega arith)
imm_value-field _ x imm = refl

module _ {M : Type 0} (m : Host M) (dec : Decoding) (s : Cpu M) (fits : HostFits m)
    (ok : IsHart s.hart) (d : IsDecoding dec) where
  field_fits :
      (o : Rv.ImmOp) (imm : ℕ) → imm < imm_bound o → dec.imm ≡ imm_field o imm → dec.imm < 2 ^ 12
  unfolding imm_bound imm_field
  field_fits Rv.srai imm small i = omega arith
  field_fits _ imm small i = omega arith

  -- The bits above a shift amount do not change the value.
  same_value :
      (o : Rv.ImmOp) (imm : ℕ)
      → dec.imm ≡ imm_field o imm
      → proceed
          (advance (write_reg dec.rd_index (imm_value o (reg s.hart dec.rs1_index) dec.imm) s.hart))
        ≡ proceed
            (advance (write_reg dec.rd_index (imm_value o (reg s.hart dec.rs1_index) imm) s.hart))
  same_value o imm i =
      ap (λ v. proceed (advance (write_reg dec.rd_index v s.hart)))
        (ap (imm_value o (reg s.hart dec.rs1_index)) i
          ∙ imm_value-field o (reg s.hart dec.rs1_index) imm)

  -- For every register-immediate instruction whose funct3 and immediate field the decoding holds,
  -- with an immediate in its range (five bits for shifts) and register indices below 32, in a well-
  -- formed hart on a host whose hart structure does not wrap round the address space: the entry
  -- finds a block that does not end the unit, and running it ends as the specification's
  -- instruction, with the same hart.
  pub immediate_entry-refines :
      (o : Rv.ImmOp) (imm : ℕ)
      → imm < imm_bound o
      → dec.imm ≡ imm_field o imm
      → dec.funct3 ≡ imm_funct3 o
      → Yields m s
          (riscv_immediate_entry dec)
          false
          (execute m.mmu (Rv.op_imm o dec.rd_index dec.rs1_index imm) s.hart)
  unfolding riscv_immediate_entry riscv_right_shift_translator imm_funct3 imm_field imm_bound
      riscv_addi_translator riscv_andi_translator riscv_ori_translator riscv_slli_translator
      riscv_stli_translator riscv_stliu_translator riscv_xori_translator srai_block srli_block
      execute
  immediate_entry-refines Rv.addi imm small i f3 = record {
    block = riscv_addi_translator dec;
    is_found = rw f3;
    unit = refl;
    outcome =
        (addi-Computes m dec s fits ok d (field_fits Rv.addi imm small i)).eq
        ∙ same_value Rv.addi imm i;
  }
  immediate_entry-refines Rv.slti imm small i f3 = record {
    block = riscv_stli_translator dec;
    is_found = rw f3;
    unit = refl;
    outcome =
        (slti-Computes m dec s fits ok d (field_fits Rv.slti imm small i)).eq
        ∙ same_value Rv.slti imm i;
  }
  immediate_entry-refines Rv.sltiu imm small i f3 = record {
    block = riscv_stliu_translator dec;
    is_found = rw f3;
    unit = refl;
    outcome =
        (sltiu-Computes m dec s fits ok d (field_fits Rv.sltiu imm small i)).eq
        ∙ same_value Rv.sltiu imm i;
  }
  immediate_entry-refines Rv.xori imm small i f3 = record {
    block = riscv_xori_translator dec;
    is_found = rw f3;
    unit = refl;
    outcome =
        (xori-Computes m dec s fits ok d (field_fits Rv.xori imm small i)).eq
        ∙ same_value Rv.xori imm i;
  }
  immediate_entry-refines Rv.ori imm small i f3 = record {
    block = riscv_ori_translator dec;
    is_found = rw f3;
    unit = refl;
    outcome =
        (ori-Computes m dec s fits ok d (field_fits Rv.ori imm small i)).eq
        ∙ same_value Rv.ori imm i;
  }
  immediate_entry-refines Rv.andi imm small i f3 = record {
    block = riscv_andi_translator dec;
    is_found = rw f3;
    unit = refl;
    outcome =
        (andi-Computes m dec s fits ok d (field_fits Rv.andi imm small i)).eq
        ∙ same_value Rv.andi imm i;
  }
  immediate_entry-refines Rv.slli imm small i f3 = record {
    block = riscv_slli_translator dec;
    is_found = rw f3;
    unit = refl;
    outcome =
        (slli-Computes m dec s fits ok d (field_fits Rv.slli imm small i)).eq
        ∙ same_value Rv.slli imm i;
  }
  immediate_entry-refines Rv.srli imm small i f3 = record {
    block = srli_block dec;
    is_found = rw (f3, i, ap (λ (b : ℕ). b == 0) (low_shift imm small)) refl;
    unit = refl;
    outcome =
        (srli-Computes m dec s fits ok d (field_fits Rv.srli imm small i)).eq
        ∙ same_value Rv.srli imm i;
  }
  immediate_entry-refines Rv.srai imm small i f3 = record {
    block = srai_block dec;
    is_found = rw (f3, i, ap (λ (b : ℕ). b == 0) (high_shift imm small)) refl;
    unit = refl;
    outcome =
        (srai-Computes m dec s fits ok d (field_fits Rv.srai imm small i)).eq
        ∙ same_value Rv.srai imm i;
  }
