-- ===== src/Translate/Arithmetic/Refines.antt =====
-- The dispatch of translate_arithmetic.c on funct3 and funct7.
use hyrule.Prelude.{false, ◌≡◌, refl}
use hyrule.Hart.{IsHart}
use hyrule.Host.Cpu.{Cpu}
use hyrule.Translate.Block.{Decoding, IsDecoding, Host, HostFits, Yields}
use hyrule.Rv.{execute}
use hyrule.Rv
use hyrule.Rv.Encode.{op_funct3, op_funct7}
use hyrule.Translate.Arithmetic.{riscv_add_sub_translator, riscv_srl_sra_translator}
use hyrule.Translate.Arithmetic.{
  riscv_arithmetic_class0_entry, riscv_add_translator, riscv_and_translator,
}
use hyrule.Translate.Arithmetic.{riscv_or_translator, riscv_sll_translator, riscv_slt_translator}
use hyrule.Translate.Arithmetic.{riscv_sltu_translator, riscv_sra_translator, riscv_srl_translator}
use hyrule.Translate.Arithmetic.{riscv_sub_translator, riscv_xor_translator}
use hyrule.Translate.Arithmetic.Laws.{
  add-Computes, sub-Computes, sll-Computes, slt-Computes, sltu-Computes,
}
use hyrule.Translate.Arithmetic.Laws.{
  xor-Computes, srl-Computes, sra-Computes, or-Computes, and-Computes,
}

module _ {M : Type 0} (m : Host M) (dec : Decoding) (s : Cpu M) (fits : HostFits m)
    (ok : IsHart s.hart) (d : IsDecoding dec) where
  -- For every register-register instruction without multiplication whose funct3 and funct7 the
  -- decoding holds, with register indices below 32, in a well-formed hart on a host whose hart
  -- structure does not wrap round the address space: the entry finds a block that does not end the
  -- unit, and running it ends as the specification's instruction, with the same hart.
  pub arithmetic_entry-refines :
      (o : Rv.Op)
      → dec.funct3 ≡ op_funct3 o
      → dec.funct7 ≡ op_funct7 o
      → Yields m s
          (riscv_arithmetic_class0_entry dec)
          false
          (execute m.mmu (Rv.op o dec.rd_index dec.rs1_index dec.rs2_index) s.hart)
  unfolding riscv_arithmetic_class0_entry riscv_add_sub_translator riscv_srl_sra_translator
      op_funct3 op_funct7 riscv_add_translator riscv_and_translator riscv_or_translator
      riscv_sll_translator riscv_slt_translator riscv_sltu_translator riscv_sra_translator
      riscv_srl_translator riscv_sub_translator riscv_xor_translator execute
  arithmetic_entry-refines Rv.add f3 f7 = record {
    block = riscv_add_translator dec;
    is_found = rw (f3, f7);
    unit = refl;
    outcome = (add-Computes m dec s fits ok d).eq;
  }
  arithmetic_entry-refines Rv.sub f3 f7 = record {
    block = riscv_sub_translator dec;
    is_found = rw (f3, f7);
    unit = refl;
    outcome = (sub-Computes m dec s fits ok d).eq;
  }
  arithmetic_entry-refines Rv.sll f3 f7 = record {
    block = riscv_sll_translator dec;
    is_found = rw f3;
    unit = refl;
    outcome = (sll-Computes m dec s fits ok d).eq;
  }
  arithmetic_entry-refines Rv.slt f3 f7 = record {
    block = riscv_slt_translator dec;
    is_found = rw f3;
    unit = refl;
    outcome = (slt-Computes m dec s fits ok d).eq;
  }
  arithmetic_entry-refines Rv.sltu f3 f7 = record {
    block = riscv_sltu_translator dec;
    is_found = rw f3;
    unit = refl;
    outcome = (sltu-Computes m dec s fits ok d).eq;
  }
  arithmetic_entry-refines Rv.xor f3 f7 = record {
    block = riscv_xor_translator dec;
    is_found = rw f3;
    unit = refl;
    outcome = (xor-Computes m dec s fits ok d).eq;
  }
  arithmetic_entry-refines Rv.srl f3 f7 = record {
    block = riscv_srl_translator dec;
    is_found = rw (f3, f7);
    unit = refl;
    outcome = (srl-Computes m dec s fits ok d).eq;
  }
  arithmetic_entry-refines Rv.sra f3 f7 = record {
    block = riscv_sra_translator dec;
    is_found = rw (f3, f7);
    unit = refl;
    outcome = (sra-Computes m dec s fits ok d).eq;
  }
  arithmetic_entry-refines Rv.or f3 f7 = record {
    block = riscv_or_translator dec;
    is_found = rw f3;
    unit = refl;
    outcome = (or-Computes m dec s fits ok d).eq;
  }
  arithmetic_entry-refines Rv.and f3 f7 = record {
    block = riscv_and_translator dec;
    is_found = rw f3;
    unit = refl;
    outcome = (and-Computes m dec s fits ok d).eq;
  }
