-- ===== src/Translate/MulDiv/Laws.antt =====
-- The blocks of translate_multiplication_and_division.c.
use hyrule.Prelude.{ℕ, ◌^◌, ◌<◌, ◌≡◌, refl, ◌∙◌}
use hyrule.Prelude.{Option, none, Bool-cases, true, false, ◌==◌, inl, inr, ◌⊎◌}
use hyrule.Prelude.Int.{quot, rem}
use hyrule.Word.{signed32}
use Prim.Native.Nat.{suc-le-suc}
use native.Mathlib.Nat.{mod-eq_of_lt, div-le_self, mod-le, le_trans}
use hyrule.Hart.{IsHart}
use hyrule.Host.Cpu.{Cpu}
use hyrule.Word.Division.{overflows}
use hyrule.Host.Instr.{proceed, fault}
use hyrule.Host.Steps.{Ends, steps, loads}
use hyrule.Rv.{mul_value, write_reg, advance, reg}
use hyrule.Rv
use hyrule.Word.Product.{word-lt, imul_low, imul_high, mul_high, imulq_high}
use hyrule.Translate.Block.{Decoding, IsDecoding, Block, Host, HostFits, env}
use hyrule.Translate.Finish.{writes_back}
use hyrule.Translate.MulDiv.{riscv_mul_translator, riscv_mulh_translator, riscv_mulhu_translator}
use hyrule.Translate.MulDiv.{riscv_mulhsu_translator, riscv_div_translator, riscv_rem_translator}
use hyrule.Translate.MulDiv.{riscv_divu_translator, riscv_remu_translator}
use hyrule.Prelude.Int
use hyrule.Translate.MulDiv.Divide.{equal_zero, cleared, on_zero, on_nonzero, idiv-Ends}
use hyrule.Translate.MulDiv.Divide.{idiv_faults_on, div_faults_on, div-Ends}

module _ {M : Type 0} (m : Host M) (dec : Decoding) (s : Cpu M) where
  abbrev Computes : Block → Rv.MulOp → Type 0
  Computes block o = Ends (env m block) Option.none block.code s (
      proceed (
        advance (
          write_reg dec.rd_index (mul_value o (reg s.hart dec.rs1_index) (reg s.hart dec.rs2_index))
            s.hart)))

  module _ (fits : HostFits m) (ok : IsHart s.hart) (d : IsDecoding dec) where
    pub mul-Computes : Computes (riscv_mul_translator dec) Rv.mul
    unfolding riscv_mul_translator mul_value
    mul-Computes = loads dec.rs1_index fits refl d.rs1_fits (
        loads dec.rs2_index fits refl d.rs2_fits (
          steps refl (
            writes_back dec.rd_index _ fits ok refl d.rd_fits
              (imul_low _ _ (ok.words dec.rs1_index) (ok.words dec.rs2_index)))))

    pub mulh-Computes : Computes (riscv_mulh_translator dec) Rv.mulh
    unfolding riscv_mulh_translator mul_value
    mulh-Computes = loads dec.rs1_index fits refl d.rs1_fits (
        loads dec.rs2_index fits refl d.rs2_fits (
          steps refl (
            writes_back dec.rd_index _ fits ok refl d.rd_fits
              (imul_high _ _ (ok.words dec.rs1_index) (ok.words dec.rs2_index)))))

    pub mulhu-Computes : Computes (riscv_mulhu_translator dec) Rv.mulhu
    unfolding riscv_mulhu_translator mul_value
    mulhu-Computes = loads dec.rs1_index fits refl d.rs1_fits (
        loads dec.rs2_index fits refl d.rs2_fits (
          steps refl (
            writes_back dec.rd_index _ fits ok refl d.rd_fits
              (mul_high _ _ (ok.words dec.rs1_index) (ok.words dec.rs2_index)))))

    pub mulhsu-Computes : Computes (riscv_mulhsu_translator dec) Rv.mulhsu
    unfolding riscv_mulhsu_translator mul_value
    mulhsu-Computes = loads dec.rs1_index fits refl d.rs1_fits (
        steps refl (
          loads dec.rs2_index fits refl d.rs2_fits (
            steps refl (
              steps refl (
                writes_back dec.rd_index _ fits ok refl d.rd_fits
                  (imulq_high _ _ (ok.words dec.rs1_index) (ok.words dec.rs2_index)))))))

    abbrev x : ℕ
    x = reg s.hart dec.rs1_index

    abbrev y : ℕ
    y = reg s.hart dec.rs2_index

    hx : x < 2 ^ 32
    hx = ok.words dec.rs1_index

    hy : y < 2 ^ 32
    hy = ok.words dec.rs2_index

    pub divu-Computes : Computes (riscv_divu_translator dec) Rv.divu
    unfolding riscv_divu_translator mul_value
    divu-Computes = loads dec.rs1_index fits refl d.rs1_fits (
        steps refl (
          loads dec.rs2_index fits refl d.rs2_fits (elim (Bool-cases (y == 0)) [
            | inl zero ↦
                on_zero (equal_zero y hy ∙ zero) refl
                  (writes_back dec.rd_index _ fits ok refl d.rd_fits (rw zero))
            | inr nonzero ↦ on_nonzero (equal_zero y hy ∙ nonzero) (
                div-Ends x y hx hy (cleared x s.rdx hx) refl nonzero (
                  steps refl (
                    writes_back dec.rd_index _ fits ok refl d.rd_fits
                      (rw nonzero (mod-eq_of_lt (le_trans (suc-le-suc (div-le_self x y)) hx))))))
          ])))

    pub remu-Computes : (y == 0) ≡ false → Computes (riscv_remu_translator dec) Rv.remu
    unfolding riscv_remu_translator mul_value
    remu-Computes nonzero = loads dec.rs1_index fits refl d.rs1_fits (
        steps refl (
          loads dec.rs2_index fits refl d.rs2_fits (
            div-Ends x y hx hy (cleared x s.rdx hx) refl nonzero (
              writes_back dec.rd_index _ fits ok refl d.rd_fits
                (rw nonzero (mod-eq_of_lt (le_trans (suc-le-suc (mod-le x y)) hx)))))))

    pub div-Computes : overflows x y ≡ false → Computes (riscv_div_translator dec) Rv.div
    unfolding riscv_div_translator mul_value
    div-Computes small = loads dec.rs1_index fits refl d.rs1_fits (
        steps refl (
          steps refl (
            loads dec.rs2_index fits refl d.rs2_fits (elim (Bool-cases (y == 0)) [
              | inl zero ↦
                  on_zero (equal_zero y hy ∙ zero) refl
                    (writes_back dec.rd_index _ fits ok refl d.rd_fits (rw zero))
              | inr nonzero ↦ on_nonzero (equal_zero y hy ∙ nonzero) (
                  idiv-Ends x y hx hy refl refl nonzero small (
                    steps refl (
                      writes_back dec.rd_index _ fits ok refl d.rd_fits
                        (rw nonzero (mod-eq_of_lt (word-lt (quot (signed32 x) (signed32 y))))))))
            ]))))

    pub rem-Computes :
        (y == 0) ≡ false → overflows x y ≡ false → Computes (riscv_rem_translator dec) Rv.rem
    unfolding riscv_rem_translator mul_value
    rem-Computes nonzero small = loads dec.rs1_index fits refl d.rs1_fits (
        steps refl (
          steps refl (
            loads dec.rs2_index fits refl d.rs2_fits (
              idiv-Ends x y hx hy refl refl nonzero small (
                writes_back dec.rd_index _ fits ok refl d.rd_fits
                  (rw nonzero (mod-eq_of_lt (word-lt (Int.rem (signed32 x) (signed32 y))))))))))

    abbrev Faults : Block → Type 0
    Faults block = Ends (env m block) none block.code s fault

    pub div-Faults : (y == 0) ≡ false → overflows x y ≡ true → Faults (riscv_div_translator dec)
    unfolding riscv_div_translator
    div-Faults nonzero large = loads dec.rs1_index fits refl d.rs1_fits (
        steps refl (
          steps refl (
            loads dec.rs2_index fits refl d.rs2_fits (
              on_nonzero (equal_zero y hy ∙ nonzero)
                (idiv_faults_on x y hx hy refl refl (inr (nonzero, large)))))))

    pub rem-Faults :
        ((y == 0) ≡ true) ⊎ (((y == 0) ≡ false) × (overflows x y ≡ true))
        → Faults (riscv_rem_translator dec)
    unfolding riscv_rem_translator
    rem-Faults why = loads dec.rs1_index fits refl d.rs1_fits (
        steps refl (
          steps refl
            (loads dec.rs2_index fits refl d.rs2_fits (idiv_faults_on x y hx hy refl refl why))))

    pub remu-Faults : (y == 0) ≡ true → Faults (riscv_remu_translator dec)
    unfolding riscv_remu_translator
    remu-Faults zero =
        loads dec.rs1_index fits refl d.rs1_fits
          (steps refl (loads dec.rs2_index fits refl d.rs2_fits (div_faults_on y hy refl zero)))
