-- ===== src/Translate/Arithmetic/Laws.antt =====
-- The blocks of translate_arithmetic.c compute the register-register instructions.
use hyrule.Prelude.{refl, ap, ◌∙◌, arith, Option}
use hyrule.Hart.{IsHart}
use hyrule.Host.Cpu.{Cpu}
use hyrule.Host.Instr.{proceed}
use hyrule.Host.Steps.{Ends, steps, loads}
use hyrule.Rv.{op_value, write_reg, advance, reg}
use hyrule.Rv
use hyrule.Translate.Block.{Decoding, IsDecoding, Block, Host, HostFits, env}
use hyrule.Translate.Finish.{writes_back}
use hyrule.Word.Laws.{and_exchanged, or_exchanged, xor_exchanged, set_low_value, signed_less32}
use hyrule.Word.Laws.{less32, shl_count, shr_count, sar_count}
use hyrule.Translate.Arithmetic.{riscv_add_translator, riscv_sub_translator, riscv_and_translator}
use hyrule.Translate.Arithmetic.{riscv_or_translator, riscv_xor_translator, riscv_slt_translator}
use hyrule.Translate.Arithmetic.{riscv_sltu_translator, riscv_sll_translator, riscv_srl_translator}
use hyrule.Translate.Arithmetic.{riscv_sra_translator}

module _ {M : Type 0} (m : Host M) (dec : Decoding) (s : Cpu M) where
  abbrev Computes : Block → Rv.Op → Type 0
  Computes block o = Ends (env m block) Option.none block.code s (
      proceed (
        advance (
          write_reg dec.rd_index (op_value o (reg s.hart dec.rs1_index) (reg s.hart dec.rs2_index))
            s.hart)))

  module _ (fits : HostFits m) (ok : IsHart s.hart) (d : IsDecoding dec) where
    pub add-Computes : Computes (riscv_add_translator dec) Rv.add
    unfolding riscv_add_translator op_value
    add-Computes = loads dec.rs1_index fits refl d.rs1_fits (
        loads dec.rs2_index fits refl d.rs2_fits (
          steps refl (
            writes_back dec.rd_index _ fits ok refl d.rd_fits
              (omega (arith, ok.words dec.rs1_index, ok.words dec.rs2_index)))))

    pub sub-Computes : Computes (riscv_sub_translator dec) Rv.sub
    unfolding riscv_sub_translator op_value
    sub-Computes = loads dec.rs1_index fits refl d.rs1_fits (
        loads dec.rs2_index fits refl d.rs2_fits (
          steps refl (
            writes_back dec.rd_index _ fits ok refl d.rd_fits
              (omega (arith, ok.words dec.rs1_index, ok.words dec.rs2_index)))))

    pub and-Computes : Computes (riscv_and_translator dec) Rv.and
    unfolding riscv_and_translator op_value
    and-Computes = loads dec.rs1_index fits refl d.rs1_fits (
        loads dec.rs2_index fits refl d.rs2_fits (
          steps refl (
            writes_back dec.rd_index _ fits ok refl d.rd_fits
              (and_exchanged _ _ (ok.words dec.rs1_index) (ok.words dec.rs2_index)))))

    pub or-Computes : Computes (riscv_or_translator dec) Rv.or
    unfolding riscv_or_translator op_value
    or-Computes = loads dec.rs1_index fits refl d.rs1_fits (
        loads dec.rs2_index fits refl d.rs2_fits (
          steps refl (
            writes_back dec.rd_index _ fits ok refl d.rd_fits
              (or_exchanged _ _ (ok.words dec.rs1_index) (ok.words dec.rs2_index)))))

    pub xor-Computes : Computes (riscv_xor_translator dec) Rv.xor
    unfolding riscv_xor_translator op_value
    xor-Computes = loads dec.rs1_index fits refl d.rs1_fits (
        loads dec.rs2_index fits refl d.rs2_fits (
          steps refl (
            writes_back dec.rd_index _ fits ok refl d.rd_fits
              (xor_exchanged _ _ (ok.words dec.rs1_index) (ok.words dec.rs2_index)))))

    pub slt-Computes : Computes (riscv_slt_translator dec) Rv.slt
    unfolding riscv_slt_translator op_value
    slt-Computes = steps refl (
        loads dec.rs1_index fits refl d.rs1_fits (
          loads dec.rs2_index fits refl d.rs2_fits (
            steps refl (
              steps refl (
                steps refl (
                  writes_back dec.rd_index _ fits ok refl d.rd_fits (
                    set_low_value _ _
                    ∙ ap Rv.truth
                        (signed_less32 _ _ (ok.words dec.rs1_index) (ok.words dec.rs2_index)))))))))

    pub sltu-Computes : Computes (riscv_sltu_translator dec) Rv.sltu
    unfolding riscv_sltu_translator op_value
    sltu-Computes = steps refl (
        loads dec.rs1_index fits refl d.rs1_fits (
          loads dec.rs2_index fits refl d.rs2_fits (
            steps refl (
              steps refl (
                steps refl (
                  writes_back dec.rd_index _ fits ok refl d.rd_fits (
                    set_low_value _ _
                    ∙ ap Rv.truth
                        (less32 _ _ (ok.words dec.rs1_index) (ok.words dec.rs2_index)))))))))

    pub sll-Computes : Computes (riscv_sll_translator dec) Rv.sll
    unfolding riscv_sll_translator op_value
    sll-Computes = loads dec.rs1_index fits refl d.rs1_fits (
        loads dec.rs2_index fits refl d.rs2_fits (
          steps refl (
            steps refl (
              writes_back dec.rd_index _ fits ok refl d.rd_fits
                (shl_count _ _ (ok.words dec.rs1_index))))))

    pub srl-Computes : Computes (riscv_srl_translator dec) Rv.srl
    unfolding riscv_srl_translator op_value
    srl-Computes = loads dec.rs1_index fits refl d.rs1_fits (
        loads dec.rs2_index fits refl d.rs2_fits (
          steps refl (
            steps refl (
              writes_back dec.rd_index _ fits ok refl d.rd_fits
                (shr_count _ _ (ok.words dec.rs1_index))))))

    pub sra-Computes : Computes (riscv_sra_translator dec) Rv.sra
    unfolding riscv_sra_translator op_value
    sra-Computes = loads dec.rs1_index fits refl d.rs1_fits (
        loads dec.rs2_index fits refl d.rs2_fits (
          steps refl (
            steps refl (
              writes_back dec.rd_index _ fits ok refl d.rd_fits
                (sar_count _ _ (ok.words dec.rs1_index))))))
