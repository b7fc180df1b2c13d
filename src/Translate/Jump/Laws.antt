-- ===== src/Translate/Jump/Laws.antt =====
-- The blocks of `lui`, `auipc`, `jal` and `jalr` do what the specification says.
use hyrule.Prelude.{ℕ, ◌+◌, ◌*◌, ◌/◌, ◌%◌, ◌^◌, ◌<◌, ◌≡◌, refl, ap, ap₂, ◌∙◌, arith, Option}
use hyrule.Word.{extend, sign_extend32}
use hyrule.Word.Extend.{sign_extend32-extend}
use hyrule.Hart.{Hart, IsHart}
use hyrule.Host.Cpu.{Cpu}
use hyrule.Host.Instr.{proceed, trap}
use hyrule.Host.Steps.{Ends, steps, halts, loads, stores_at}
use hyrule.Rv.{write_reg, set_pc, advance, address}
use hyrule.Translate.Block.{Decoding, IsDecoding, Host, HostFits, env}
use hyrule.Translate.Finish.{write_reg-set}
use hyrule.Translate.Jump.{riscv_lui_translator, riscv_auipc_translator, riscv_jal_translator}
use hyrule.Translate.Jump.{riscv_jalr_translator}

module _ {M : Type 0} (m : Host M) (dec : Decoding) (s : Cpu M) (fits : HostFits m)
    (ok : IsHart s.hart) (d : IsDecoding dec) where
  pub lui-Ends :
      dec.imm < 2 ^ 20
      → (let b = riscv_lui_translator dec in
          Ends
            (env m b)
            Option.none
            b.code
            s
            (proceed (advance (write_reg dec.rd_index (dec.imm * 2 ^ 12) s.hart))))
  unfolding riscv_lui_translator
  lui-Ends short = steps refl (
      steps refl (
        steps refl (
          steps refl (
            steps refl (
              stores_at dec.rd_index (dec.imm * 2 ^ 12) (omega (arith, d.rd_fits)) d.rd_fits
                (omega arith)
                (steps refl (
                  steps refl (
                    halts refl
                      (ap (λ h. proceed (advance h)) (write_reg-set dec.rd_index _ ok))))))))))

  pub auipc-Ends :
      dec.imm < 2 ^ 20
      → (let b = riscv_auipc_translator s.hart.pc dec in
          Ends (env m b) Option.none b.code s (
            proceed
              (advance (write_reg dec.rd_index ((s.hart.pc + dec.imm * 2 ^ 12) % 2 ^ 32) s.hart))))
  unfolding riscv_auipc_translator
  auipc-Ends short = steps refl (
      steps refl (
        steps refl (
          steps refl (
            steps refl (
              steps refl (
                steps refl (
                  stores_at dec.rd_index ((s.hart.pc + dec.imm * 2 ^ 12) % 2 ^ 32)
                    (omega (arith, d.rd_fits)) d.rd_fits (omega arith)
                    (steps refl (
                      steps refl (
                        halts refl (
                          ap (λ h. proceed (advance h)) (write_reg-set dec.rd_index _ ok))))))))))))

  offset : dec.imm < 2 ^ 20 → sign_extend32 (dec.imm * 2 % 2 ^ 32) 20 ≡ extend 21 (2 * dec.imm)
  offset short =
      ap (λ (x : ℕ). sign_extend32 x 20) (omega arith)
      ∙ sign_extend32-extend (2 * dec.imm) 20 (omega arith) (omega arith)

  pub jal-Ends :
      dec.imm < 2 ^ 20
      → (let b = riscv_jal_translator s.hart.pc dec in
          Ends (env m b) Option.none b.code s (
            trap (
              set_pc
                (s.hart.pc + extend 21 (2 * dec.imm))
                (write_reg dec.rd_index ((s.hart.pc + 4) % 2 ^ 32) s.hart))))
  unfolding riscv_jal_translator
  jal-Ends short = steps refl (
      steps refl (
        steps refl (
          steps refl (
            stores_at dec.rd_index ((s.hart.pc + 4) % 2 ^ 32) (omega (arith, d.rd_fits)) d.rd_fits
              (omega arith)
              (steps refl (
                steps refl (
                  steps refl (
                    halts refl (
                      ap₂ (λ (g : Hart M) (a : ℕ). trap (record g { pc = a }))
                        (write_reg-set dec.rd_index _ ok) (rw (offset short) (omega arith)))))))))))

  pub jalr-Ends :
      dec.imm < 2 ^ 12
      → (let b = riscv_jalr_translator s.hart.pc dec in
          Ends (env m b) Option.none b.code s (
            trap (
              set_pc
                (address s.hart dec.rs1_index dec.imm / 2 * 2)
                (write_reg dec.rd_index ((s.hart.pc + 4) % 2 ^ 32) s.hart))))
  unfolding riscv_jalr_translator
  jalr-Ends short = loads dec.rs1_index fits refl d.rs1_fits (
      steps refl (
        steps refl (
          steps refl (
            steps refl (
              steps refl (
                steps refl (
                  steps refl (
                    stores_at dec.rd_index ((s.hart.pc + 4) % 2 ^ 32) (omega (arith, d.rd_fits))
                      d.rd_fits (omega arith)
                      (steps refl (
                        steps refl (
                          halts refl (
                            ap₂ (λ (g : Hart M) (a : ℕ). trap (record g { pc = a }))
                              (write_reg-set dec.rd_index _ ok)
                              (rw (sign_extend32-extend dec.imm 11 (omega arith) short)
                                (omega arith))))))))))))))
