-- ===== src/Translate/Dispatch/Data.antt =====
-- Memory accesses and arithmetic, decoded, dispatched and run.
use hyrule.Prelude.{ℕ, true, false, ◌^◌, ◌<◌, ◌≡◌, refl, sym, arith}
use mathlib.Core.Path.{subst}
use hyrule.Hart.{IsHart, IsMmu}
use hyrule.Host.Cpu.{Cpu}
use hyrule.Host.Instr.{fault}
use hyrule.Rv.{execute, reg}
use hyrule.Rv
use hyrule.Rv.Format.{format_i, format_s, format_r}
use hyrule.Rv.Encode.{encode, op_funct3, op_funct7, mul_funct3, imm_funct3, imm_field}
use hyrule.Rv.Encode.{imm_bound, load_funct3, store_funct3}
use hyrule.Translate.Block.{Host, HostFits, Yields}
use hyrule.Translate.Block.{encoding_type_i, encoding_type_s, encoding_type_r}
use hyrule.Translate.Decode.Fields.{decoded, decodes_i, decodes_s, decodes_r}
use hyrule.Translate.Arithmetic.Refines.{arithmetic_entry-refines}
use hyrule.Translate.Immediate.Refines.{immediate_entry-refines}
use hyrule.Translate.Memory.Load.{load_entry-refines}
use hyrule.Translate.Memory.Store.{store_entry-refines}
use hyrule.Translate.MulDiv.Refines.{mul_div_entry-refines, mul_div_entry-faults, host_faults}
use hyrule.Translate.Dispatch.Codes.{load_funct3-lt, store_funct3-lt, imm_funct3-lt}
use hyrule.Translate.Dispatch.Codes.{
  op_funct3-lt, op_funct7-lt, mul_funct3-lt, imm_field-lt, arithmetic_class0,
}
use hyrule.Translate.Dispatch.{OtherTranslators, translate, translate_as, riscv_arithmetic_entry}
use hyrule.Translate.Dispatch.Table.{ends_unit, translate-decoded, Translates}

module _ {M : Type 0} (others : OtherTranslators) (m : Host M) (s : Cpu M) (fits : HostFits m)
    (ok : IsHart s.hart) where
  pub load-Translates :
      (o : Rv.LoadOp) (rd rs1 imm : ℕ)
      → rd < 2 ^ 5
      → rs1 < 2 ^ 5
      → imm < 2 ^ 12
      → IsMmu m.mmu
      → Translates others m s (Rv.load o rd rs1 imm)
  unfolding translate_as encode ends_unit
  load-Translates o rd rs1 imm rd_fits rs1_fits imm_fits mmu =
      let d = decoded encoding_type_i 0x03 (load_funct3 o) rd rs1 0 0 imm in
      let e =
        decodes_i 0x03 (load_funct3 o) rs1 (omega arith) (load_funct3-lt o) rs1_fits rd rd_fits imm
          imm_fits in
      rw
        (
          translate-decoded others s.hart.pc encoding_type_i
              (format_i 0x03 rd (load_funct3 o) rs1 imm) d e,
          e,
        )
        (load_entry-refines m d s fits ok
          (record { rd_fits = rd_fits; rs1_fits = rs1_fits; rs2_fits = omega arith }) imm_fits mmu o
          refl)

  pub store-Translates :
      (o : Rv.StoreOp) (rs1 rs2 imm : ℕ)
      → rs1 < 2 ^ 5
      → rs2 < 2 ^ 5
      → imm < 2 ^ 12
      → IsMmu m.mmu
      → Translates others m s (Rv.store o rs1 rs2 imm)
  unfolding translate_as encode ends_unit
  store-Translates o rs1 rs2 imm rs1_fits rs2_fits imm_fits mmu =
      let d = decoded encoding_type_s 0x23 (store_funct3 o) 0 rs1 rs2 0 imm in
      let e =
        decodes_s 0x23 (store_funct3 o) rs1 (omega arith) (store_funct3-lt o) rs1_fits rs2 imm
          rs2_fits imm_fits in
      rw
        (
          translate-decoded others s.hart.pc encoding_type_s
              (format_s 0x23 (store_funct3 o) rs1 rs2 imm) d e,
          e,
        )
        (store_entry-refines m d s fits ok
          (record { rd_fits = omega arith; rs1_fits = rs1_fits; rs2_fits = rs2_fits }) imm_fits mmu
          o refl)

  pub op_imm-Translates :
      (o : Rv.ImmOp) (rd rs1 imm : ℕ)
      → rd < 2 ^ 5
      → rs1 < 2 ^ 5
      → imm < imm_bound o
      → Translates others m s (Rv.op_imm o rd rs1 imm)
  unfolding translate_as encode ends_unit
  op_imm-Translates o rd rs1 imm rd_fits rs1_fits imm_fits =
      let d = decoded encoding_type_i 0x13 (imm_funct3 o) rd rs1 0 0 (imm_field o imm) in
      let e =
        decodes_i 0x13 (imm_funct3 o) rs1 (omega arith) (imm_funct3-lt o) rs1_fits rd rd_fits
          (imm_field o imm) (imm_field-lt o imm imm_fits) in
      rw
        (
          translate-decoded others s.hart.pc encoding_type_i
              (format_i 0x13 rd (imm_funct3 o) rs1 (imm_field o imm)) d e,
          e,
        )
        (immediate_entry-refines m d s fits ok
          (record { rd_fits = rd_fits; rs1_fits = rs1_fits; rs2_fits = omega arith }) o imm imm_fits
          refl refl)

  pub op-Translates :
      (o : Rv.Op) (rd rs1 rs2 : ℕ)
      → rd < 2 ^ 5
      → rs1 < 2 ^ 5
      → rs2 < 2 ^ 5
      → Translates others m s (Rv.op o rd rs1 rs2)
  unfolding translate_as encode ends_unit
  op-Translates o rd rs1 rs2 rd_fits rs1_fits rs2_fits =
      let d = decoded encoding_type_r 0x33 (op_funct3 o) rd rs1 rs2 (op_funct7 o) 0 in
      let e =
        decodes_r 0x33 (op_funct3 o) rs1 (omega arith) (op_funct3-lt o) rs1_fits rd rd_fits rs2
          (op_funct7 o) rs2_fits (op_funct7-lt o) in
      rw
        (
          translate-decoded others s.hart.pc encoding_type_r
              (format_r 0x33 rd (op_funct3 o) rs1 rs2 (op_funct7 o)) d e,
          e,
        )
        (subst (λ found. Yields m s found false (execute m.mmu (Rv.op o rd rs1 rs2) s.hart))
          (sym (arithmetic_class0 d o refl))
          (arithmetic_entry-refines m d s fits ok
            (record { rd_fits = rd_fits; rs1_fits = rs1_fits; rs2_fits = rs2_fits }) o refl refl))

  pub mul_div-Translates :
      (o : Rv.MulOp) (rd rs1 rs2 : ℕ)
      → rd < 2 ^ 5
      → rs1 < 2 ^ 5
      → rs2 < 2 ^ 5
      → host_faults o (reg s.hart rs1) (reg s.hart rs2) ≡ false
      → Translates others m s (Rv.mul_div o rd rs1 rs2)
  unfolding translate_as encode ends_unit riscv_arithmetic_entry
  mul_div-Translates o rd rs1 rs2 rd_fits rs1_fits rs2_fits fine =
      let d = decoded encoding_type_r 0x33 (mul_funct3 o) rd rs1 rs2 1 0 in
      let e =
        decodes_r 0x33 (mul_funct3 o) rs1 (omega arith) (mul_funct3-lt o) rs1_fits rd rd_fits rs2 1
          rs2_fits (omega arith) in
      rw
        (
          translate-decoded others s.hart.pc encoding_type_r
              (format_r 0x33 rd (mul_funct3 o) rs1 rs2 1) d e,
          e,
        )
        (mul_div_entry-refines m d s fits ok
          (record { rd_fits = rd_fits; rs1_fits = rs1_fits; rs2_fits = rs2_fits }) o refl fine)

  pub mul_div-faults :
      (o : Rv.MulOp) (rd rs1 rs2 : ℕ)
      → rd < 2 ^ 5
      → rs1 < 2 ^ 5
      → rs2 < 2 ^ 5
      → host_faults o (reg s.hart rs1) (reg s.hart rs2) ≡ true
      → Yields m s (translate others s.hart.pc (encode (Rv.mul_div o rd rs1 rs2))) false fault
  unfolding translate_as encode ends_unit riscv_arithmetic_entry
  mul_div-faults o rd rs1 rs2 rd_fits rs1_fits rs2_fits fine =
      let d = decoded encoding_type_r 0x33 (mul_funct3 o) rd rs1 rs2 1 0 in
      let e =
        decodes_r 0x33 (mul_funct3 o) rs1 (omega arith) (mul_funct3-lt o) rs1_fits rd rd_fits rs2 1
          rs2_fits (omega arith) in
      rw
        (
          translate-decoded others s.hart.pc encoding_type_r
              (format_r 0x33 rd (mul_funct3 o) rs1 rs2 1) d e,
          e,
        )
        (mul_div_entry-faults m d s fits ok
          (record { rd_fits = rd_fits; rs1_fits = rs1_fits; rs2_fits = rs2_fits }) o refl fine)
