-- ===== src/Translate/Memory/Laws.antt =====
-- The blocks of translate_memory_load.c and translate_memory_store.c load and store what the
-- specification says, and end where the memory does not answer.
use hyrule.Prelude.{ℕ, ◌+◌, ◌*◌, ◌%◌, ◌^◌, ◌<◌, ◌≡◌, refl, ap, ◌∙◌, arith}
use hyrule.Prelude.{none, ◌∷◌, Option-cases, set, inl, inr, bit_and}
use native.Mathlib.Nat.{mod-eq_of_lt}
use hyrule.Prelude.Bits.{bit_and_mask}
use hyrule.Word.{extend, sign_extend32}
use hyrule.Word.Extend.{sign_extend32-extend}
use hyrule.Hart.{Hart, IsHart, IsMmu}
use hyrule.Host.Cpu.{Cpu, Reg, Env}
use hyrule.Host.Instr.{proceed, movl_store}
use hyrule.Host.Steps.{Ends, steps, halts, loads, stores_at}
use hyrule.Rv.{address, reg, load_value, store_value, finish_load, finish_store, advance}
use hyrule.Rv.{write_reg}
use hyrule.Rv
use hyrule.Translate.Block.{Decoding, IsDecoding, Block, Host, HostFits, env}
use hyrule.Translate.Finish.{epilogue, write_reg-set}
use hyrule.Translate.Memory.{riscv_lb_translator, riscv_lbu_translator, riscv_lh_translator}
use hyrule.Translate.Memory.{riscv_lhu_translator, riscv_lw_translator, riscv_sb_translator}
use hyrule.Translate.Memory.Calls.{reads8, reads16, reads32, no_read8, no_read16, no_read32}
use hyrule.Translate.Memory.Calls.{writes8, writes16, writes32, no_write8, no_write16, no_write32}
use hyrule.Translate.Memory.{riscv_sh_translator, riscv_sw_translator}

-- The value cut to the width of the store by a mask.
cut_byte : (y : ℕ) → bit_and (y % 2 ^ 32) 0xff % 2 ^ 32 ≡ y % 2 ^ 8
cut_byte y = omega (arith, bit_and_mask 8 (y % 2 ^ 32))

cut_half : (y : ℕ) → bit_and (y % 2 ^ 32) 0xffff % 2 ^ 32 ≡ y % 2 ^ 16
cut_half y = omega (arith, bit_and_mask 16 (y % 2 ^ 32))

module _ {M : Type 0} (m : Host M) (dec : Decoding) (s : Cpu M) where
  abbrev Loads : Block → Rv.LoadOp → Type 0
  Loads block o = Ends (env m block) none block.code s (
      finish_load dec.rd_index
        (load_value m.mmu o s.hart.guest (address s.hart dec.rs1_index dec.imm)) s.hart)

  abbrev Stores : Block → Rv.StoreOp → Type 0
  Stores block o = Ends (env m block) none block.code s (
      finish_store
        (store_value m.mmu o s.hart.guest (address s.hart dec.rs1_index dec.imm)
          (reg s.hart dec.rs2_index))
        s.hart)

  module _ (fits : HostFits m) (ok : IsHart s.hart) (d : IsDecoding dec) (short : dec.imm < 2 ^ 12)
      (mmu : IsMmu m.mmu) where
    -- esi before the call.
    location :
        ((reg s.hart dec.rs1_index % 2 ^ 32 + sign_extend32 dec.imm 11 % 2 ^ 32 % 2 ^ 32) % 2 ^ 32)
          % 2 ^ 32
        ≡ address s.hart dec.rs1_index dec.imm
    location = rw (sign_extend32-extend dec.imm 11 (omega arith) short) (omega arith)

    abbrev place : ℕ
    place = address s.hart dec.rs1_index dec.imm

    -- From the store of the result into the destination register.
    finishes_load :
        {e : Env M} {u : Cpu M} (v : ℕ)
        → u.hart ≡ s.hart
        → u.rdx ≡ e.base + 4 * dec.rd_index
        → u.rax % 2 ^ 32 ≡ v
        → Ends e none
            (movl_store Reg.rax Reg.rdx ∷ epilogue)
            u
            (proceed (advance (write_reg dec.rd_index v s.hart)))
    finishes_load {u} v same at value = stores_at dec.rd_index v at d.rd_fits value (
        steps refl (
          steps refl (
            halts refl (
              ap (λ h. proceed (advance h))
                (ap (λ (h : Hart M). record h { regs = set (set h.regs dec.rd_index v) 0 0 }) same
                  ∙ write_reg-set dec.rd_index v ok)))))

    pub lb-Loads : Loads (riscv_lb_translator dec) Rv.lb
    unfolding riscv_lb_translator
    lb-Loads = loads dec.rs1_index fits refl d.rs1_fits (
        steps refl (
          steps refl (elim (Option-cases (m.mmu.read8 s.hart.guest place)) [
            | inl none_read ↦ rw none_read (no_read8 place 0 location none_read)
            | inr (v, read) ↦ rw read (
                reads8 place v location read (
                  steps refl (
                    steps refl (
                      steps refl (
                        steps refl (
                          finishes_load (extend 8 v) refl (omega (arith, d.rd_fits))
                            (ground (arith, mmu.byte s.hart.guest place v read))))))))
          ])))

    pub lbu-Loads : Loads (riscv_lbu_translator dec) Rv.lbu
    unfolding riscv_lbu_translator
    lbu-Loads = loads dec.rs1_index fits refl d.rs1_fits (
        steps refl (
          steps refl (elim (Option-cases (m.mmu.read8 s.hart.guest place)) [
            | inl none_read ↦ rw none_read (no_read8 place 0 location none_read)
            | inr (v, read) ↦ rw read (
                reads8 place v location read (
                  steps refl (
                    steps refl (
                      steps refl (
                        steps refl (
                          finishes_load v refl (omega (arith, d.rd_fits))
                            (omega (arith, mmu.byte s.hart.guest place v read))))))))
          ])))

    pub lh-Loads : Loads (riscv_lh_translator dec) Rv.lh
    unfolding riscv_lh_translator
    lh-Loads = loads dec.rs1_index fits refl d.rs1_fits (
        steps refl (
          steps refl (elim (Option-cases (m.mmu.read16 s.hart.guest place)) [
            | inl none_read ↦ rw none_read (no_read16 place 0 location none_read)
            | inr (v, read) ↦ rw read (
                reads16 place v location read (
                  steps refl (
                    steps refl (
                      steps refl (
                        steps refl (
                          finishes_load (extend 16 v) refl (omega (arith, d.rd_fits))
                            (ground (arith, mmu.half s.hart.guest place v read))))))))
          ])))

    pub lhu-Loads : Loads (riscv_lhu_translator dec) Rv.lhu
    unfolding riscv_lhu_translator
    lhu-Loads = loads dec.rs1_index fits refl d.rs1_fits (
        steps refl (
          steps refl (elim (Option-cases (m.mmu.read16 s.hart.guest place)) [
            | inl none_read ↦ rw none_read (no_read16 place 0 location none_read)
            | inr (v, read) ↦ rw read (
                reads16 place v location read (
                  steps refl (
                    steps refl (
                      steps refl (
                        steps refl (
                          finishes_load v refl (omega (arith, d.rd_fits))
                            (omega (arith, mmu.half s.hart.guest place v read))))))))
          ])))

    pub lw-Loads : Loads (riscv_lw_translator dec) Rv.lw
    unfolding riscv_lw_translator
    lw-Loads = loads dec.rs1_index fits refl d.rs1_fits (
        steps refl (
          steps refl (elim (Option-cases (m.mmu.read32 s.hart.guest place)) [
            | inl none_read ↦ rw none_read (no_read32 place 0 location none_read)
            | inr (v, read) ↦ rw read (
                reads32 place v location read (
                  steps refl (
                    steps refl (
                      steps refl (
                        finishes_load v refl (omega (arith, d.rd_fits))
                          (omega (arith, mmu.word s.hart.guest place v read)))))))
          ])))

    pub sb-Stores : Stores (riscv_sb_translator dec) Rv.sb
    unfolding riscv_sb_translator
    sb-Stores = loads dec.rs1_index fits refl d.rs1_fits (
        steps refl (
          steps refl (
            loads dec.rs2_index fits refl d.rs2_fits (
              steps refl
                (elim (Option-cases
                  (m.mmu.write8 s.hart.guest place (reg s.hart dec.rs2_index % 2 ^ 8))) [
                    | inl refused ↦ rw refused (
                        no_write8 place (reg s.hart dec.rs2_index % 2 ^ 8) location
                          (cut_byte (reg s.hart dec.rs2_index)) refused)
                    | inr (g, written) ↦ rw written (
                        writes8 g place (reg s.hart dec.rs2_index % 2 ^ 8) location
                          (cut_byte (reg s.hart dec.rs2_index)) written
                          (steps refl (halts refl refl)))
                  ])))))

    pub sh-Stores : Stores (riscv_sh_translator dec) Rv.sh
    unfolding riscv_sh_translator
    sh-Stores = loads dec.rs1_index fits refl d.rs1_fits (
        steps refl (
          steps refl (
            loads dec.rs2_index fits refl d.rs2_fits (
              steps refl
                (elim (Option-cases
                  (m.mmu.write16 s.hart.guest place (reg s.hart dec.rs2_index % 2 ^ 16))) [
                    | inl refused ↦ rw refused (
                        no_write16 place (reg s.hart dec.rs2_index % 2 ^ 16) location
                          (cut_half (reg s.hart dec.rs2_index)) refused)
                    | inr (g, written) ↦ rw written (
                        writes16 g place (reg s.hart dec.rs2_index % 2 ^ 16) location
                          (cut_half (reg s.hart dec.rs2_index)) written
                          (steps refl (halts refl refl)))
                  ])))))

    pub sw-Stores : Stores (riscv_sw_translator dec) Rv.sw
    unfolding riscv_sw_translator
    sw-Stores = loads dec.rs1_index fits refl d.rs1_fits (
        steps refl (
          steps refl (
            loads dec.rs2_index fits refl d.rs2_fits
              (elim (Option-cases (m.mmu.write32 s.hart.guest place (reg s.hart dec.rs2_index))) [
                | inl refused ↦ rw refused (
                    no_write32 place (reg s.hart dec.rs2_index) location
                      (mod-eq_of_lt (ok.words dec.rs2_index)) refused)
                | inr (g, written) ↦ rw written (
                    writes32 g place (reg s.hart dec.rs2_index) location
                      (mod-eq_of_lt (ok.words dec.rs2_index)) written
                      (steps refl (halts refl refl)))
              ]))))
