-- ===== src/Translate/Immediate/Laws.antt =====
-- The blocks of translate_arithmetic_immediate.c compute the register-immediate instructions.
use hyrule.Prelude.{◌^◌, ◌<◌, ◌≡◌, refl, ap, ◌∙◌, arith, Option}
use hyrule.Word.{extend}
use hyrule.Word.Extend.{sign_extend32-extend}
use hyrule.Word.Laws.{set_low_value, signed_less32, less32, extend-lt, and_imm, or_imm, xor_imm}
use hyrule.Word.Laws.{add_imm, shl_imm_count, shr_imm_count, sar_imm_count}
use hyrule.Hart.{IsHart}
use hyrule.Host.Cpu.{Cpu}
use hyrule.Host.Instr.{proceed}
use hyrule.Host.Steps.{Ends, steps, loads}
use hyrule.Rv.{op_value, imm_value, write_reg, advance, reg}
use hyrule.Rv
use hyrule.Translate.Block.{Decoding, IsDecoding, Block, Host, HostFits, env}
use hyrule.Translate.Finish.{writes_back}
use hyrule.Translate.Immediate.{
  riscv_addi_translator, riscv_stli_translator, riscv_stliu_translator,
}
use hyrule.Translate.Immediate.{riscv_xori_translator, riscv_ori_translator, riscv_andi_translator}
use hyrule.Translate.Immediate.{riscv_slli_translator, srli_block, srai_block, signed_imm}

module _ {M : Type 0} (m : Host M) (dec : Decoding) (s : Cpu M) where
  abbrev Computes : Block → Rv.ImmOp → Type 0
  Computes block o = Ends (env m block) Option.none block.code s (
      proceed
        (advance (write_reg dec.rd_index (imm_value o (reg s.hart dec.rs1_index) dec.imm) s.hart)))

  module _ (fits : HostFits m) (ok : IsHart s.hart) (d : IsDecoding dec)
      (short : dec.imm < 2 ^ 12) where
    extended : signed_imm dec ≡ extend 12 dec.imm
    extended = sign_extend32-extend dec.imm 11 (omega arith) short

    pub addi-Computes : Computes (riscv_addi_translator dec) Rv.addi
    unfolding riscv_addi_translator imm_value op_value
    addi-Computes = loads dec.rs1_index fits refl d.rs1_fits (
        steps refl (
          steps refl (
            writes_back dec.rd_index _ fits ok refl d.rd_fits
              (rw extended (add_imm _ _ (ok.words dec.rs1_index) (extend-lt dec.imm short))))))

    pub slti-Computes : Computes (riscv_stli_translator dec) Rv.slti
    unfolding riscv_stli_translator imm_value op_value
    slti-Computes = steps refl (
        loads dec.rs1_index fits refl d.rs1_fits (
          steps refl (
            steps refl (
              steps refl (
                writes_back dec.rd_index _ fits ok refl d.rd_fits (
                  rw extended (
                    set_low_value _ _
                    ∙ ap Rv.truth (
                        signed_less32 _ _ (ok.words dec.rs1_index) (extend-lt dec.imm short)))))))))

    pub sltiu-Computes : Computes (riscv_stliu_translator dec) Rv.sltiu
    unfolding riscv_stliu_translator imm_value op_value
    sltiu-Computes = steps refl (
        loads dec.rs1_index fits refl d.rs1_fits (
          steps refl (
            steps refl (
              steps refl (
                writes_back dec.rd_index _ fits ok refl d.rd_fits (
                  rw extended (
                    set_low_value _ _
                    ∙ ap Rv.truth
                        (less32 _ _ (ok.words dec.rs1_index) (extend-lt dec.imm short)))))))))

    pub xori-Computes : Computes (riscv_xori_translator dec) Rv.xori
    unfolding riscv_xori_translator imm_value op_value
    xori-Computes = steps refl (
        loads dec.rs1_index fits refl d.rs1_fits (
          steps refl (
            steps refl (
              writes_back dec.rd_index _ fits ok refl d.rd_fits
                (rw extended (xor_imm _ _ (ok.words dec.rs1_index) (extend-lt dec.imm short)))))))

    pub ori-Computes : Computes (riscv_ori_translator dec) Rv.ori
    unfolding riscv_ori_translator imm_value op_value
    ori-Computes = steps refl (
        loads dec.rs1_index fits refl d.rs1_fits (
          steps refl (
            steps refl (
              writes_back dec.rd_index _ fits ok refl d.rd_fits
                (rw extended (or_imm _ _ (ok.words dec.rs1_index) (extend-lt dec.imm short)))))))

    pub andi-Computes : Computes (riscv_andi_translator dec) Rv.andi
    unfolding riscv_andi_translator imm_value op_value
    andi-Computes = steps refl (
        loads dec.rs1_index fits refl d.rs1_fits (
          steps refl (
            steps refl (
              writes_back dec.rd_index _ fits ok refl d.rd_fits
                (rw extended (and_imm _ _ (ok.words dec.rs1_index) (extend-lt dec.imm short)))))))

    pub slli-Computes : Computes (riscv_slli_translator dec) Rv.slli
    unfolding riscv_slli_translator imm_value op_value
    slli-Computes = steps refl (
        loads dec.rs1_index fits refl d.rs1_fits (
          steps refl (
            steps refl (
              steps refl (
                writes_back dec.rd_index _ fits ok refl d.rd_fits
                  (shl_imm_count _ _ (ok.words dec.rs1_index)))))))

    pub srli-Computes : Computes (srli_block dec) Rv.srli
    unfolding srli_block imm_value op_value
    srli-Computes = steps refl (
        loads dec.rs1_index fits refl d.rs1_fits (
          steps refl (
            steps refl (
              steps refl (
                writes_back dec.rd_index _ fits ok refl d.rd_fits
                  (shr_imm_count _ _ (ok.words dec.rs1_index)))))))

    pub srai-Computes : Computes (srai_block dec) Rv.srai
    unfolding srai_block imm_value op_value
    srai-Computes = steps refl (
        loads dec.rs1_index fits refl d.rs1_fits (
          steps refl (
            steps refl (
              steps refl (
                writes_back dec.rd_index _ fits ok refl d.rd_fits
                  (sar_imm_count _ _ (ok.words dec.rs1_index)))))))
