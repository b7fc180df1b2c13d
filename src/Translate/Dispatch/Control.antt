-- ===== src/Translate/Dispatch/Control.antt =====
-- `lui`, `auipc`, the jumps and the branches, decoded, dispatched and run.
use hyrule.Prelude.{ℕ, ◌^◌, ◌<◌, refl, arith}
use hyrule.Hart.{IsHart}
use hyrule.Host.Cpu.{Cpu}
use hyrule.Rv.{execute, reg}
use hyrule.Rv
use hyrule.Rv.Format.{format_u, format_uj, format_i, format_b}
use hyrule.Rv.Encode.{encode}
use hyrule.Rv.Encode.{branch_funct3}
use hyrule.Translate.Block.{Host, HostFits, encoding_type_u, encoding_type_uj}
use hyrule.Translate.Block.{encoding_type_i, encoding_type_b}
use hyrule.Translate.Decode.Fields.{decoded, decodes_u, decodes_uj, decodes_i, decodes_b}
use hyrule.Translate.Jump.Laws.{lui-Ends, auipc-Ends, jal-Ends, jalr-Ends}
use hyrule.Translate.Jump.{riscv_lui_translator, riscv_auipc_translator, riscv_jal_translator}
use hyrule.Translate.Jump.{riscv_jalr_translator}
use hyrule.Translate.Branch.Refines.{branch_entry-refines}
use hyrule.Translate.Dispatch.Codes.{branch_funct3-lt}
use hyrule.Translate.Dispatch.{OtherTranslators, translate_as}
use hyrule.Translate.Dispatch.Table.{ends_unit, translate-decoded, Translates}

module _ {M : Type 0} (others : OtherTranslators) (m : Host M) (s : Cpu M) (fits : HostFits m)
    (ok : IsHart s.hart) where
  pub lui-Translates :
      (rd imm : ℕ) → rd < 2 ^ 5 → imm < 2 ^ 20 → Translates others m s (Rv.lui rd imm)
  unfolding translate_as encode ends_unit execute riscv_lui_translator
  lui-Translates rd imm rd_fits imm_fits =
      let d = decoded encoding_type_u 0x37 0 rd 0 0 0 imm in
      let e = decodes_u 0x37 rd imm (omega arith) rd_fits imm_fits in
      rw (translate-decoded others s.hart.pc encoding_type_u (format_u 0x37 rd imm) d e, e)
        (record {
          block = riscv_lui_translator d;
          is_found = refl;
          unit = refl;
          outcome =
              (lui-Ends m d s fits ok
                (record { rd_fits = rd_fits; rs1_fits = omega arith; rs2_fits = omega arith })
                imm_fits).eq;
        })

  pub auipc-Translates :
      (rd imm : ℕ) → rd < 2 ^ 5 → imm < 2 ^ 20 → Translates others m s (Rv.auipc rd imm)
  unfolding translate_as encode ends_unit execute riscv_auipc_translator
  auipc-Translates rd imm rd_fits imm_fits =
      let d = decoded encoding_type_u 0x17 0 rd 0 0 0 imm in
      let e = decodes_u 0x17 rd imm (omega arith) rd_fits imm_fits in
      rw (translate-decoded others s.hart.pc encoding_type_u (format_u 0x17 rd imm) d e, e)
        (record {
          block = riscv_auipc_translator s.hart.pc d;
          is_found = refl;
          unit = refl;
          outcome =
              (auipc-Ends m d s fits ok
                (record { rd_fits = rd_fits; rs1_fits = omega arith; rs2_fits = omega arith })
                imm_fits).eq;
        })

  pub jal-Translates :
      (rd imm : ℕ) → rd < 2 ^ 5 → imm < 2 ^ 20 → Translates others m s (Rv.jal rd imm)
  unfolding translate_as encode ends_unit execute riscv_jal_translator
  jal-Translates rd imm rd_fits imm_fits =
      let d = decoded encoding_type_uj 0x6f 0 rd 0 0 0 imm in
      let e = decodes_uj 0x6f rd imm (omega arith) rd_fits imm_fits in
      rw (translate-decoded others s.hart.pc encoding_type_uj (format_uj 0x6f rd imm) d e, e)
        (record {
          block = riscv_jal_translator s.hart.pc d;
          is_found = refl;
          unit = refl;
          outcome =
              (jal-Ends m d s fits ok
                (record { rd_fits = rd_fits; rs1_fits = omega arith; rs2_fits = omega arith })
                imm_fits).eq;
        })

  pub jalr-Translates :
      (rd rs1 imm : ℕ)
      → rd < 2 ^ 5
      → rs1 < 2 ^ 5
      → imm < 2 ^ 12
      → Translates others m s (Rv.jalr rd rs1 imm)
  unfolding translate_as encode ends_unit execute riscv_jalr_translator
  jalr-Translates rd rs1 imm rd_fits rs1_fits imm_fits =
      let d = decoded encoding_type_i 0x67 0 rd rs1 0 0 imm in
      let e = decodes_i 0x67 0 rs1 (omega arith) (omega arith) rs1_fits rd rd_fits imm imm_fits in
      rw (translate-decoded others s.hart.pc encoding_type_i (format_i 0x67 rd 0 rs1 imm) d e, e)
        (record {
          block = riscv_jalr_translator s.hart.pc d;
          is_found = refl;
          unit = refl;
          outcome =
              (jalr-Ends m d s fits ok
                (record { rd_fits = rd_fits; rs1_fits = rs1_fits; rs2_fits = omega arith })
                imm_fits).eq;
        })

  pub branch-Translates :
      (o : Rv.BranchOp) (rs1 rs2 imm : ℕ)
      → rs1 < 2 ^ 5
      → rs2 < 2 ^ 5
      → imm < 2 ^ 12
      → Translates others m s (Rv.branch o rs1 rs2 imm)
  unfolding translate_as encode ends_unit
  branch-Translates o rs1 rs2 imm rs1_fits rs2_fits imm_fits =
      let d = decoded encoding_type_b 0x63 (branch_funct3 o) 0 rs1 rs2 0 imm in
      let e =
        decodes_b 0x63 (branch_funct3 o) rs1 (omega arith) (branch_funct3-lt o) rs1_fits rs2 imm
          rs2_fits imm_fits in
      rw
        (
          translate-decoded others s.hart.pc encoding_type_b
              (format_b 0x63 (branch_funct3 o) rs1 rs2 imm) d e,
          e,
        )
        (branch_entry-refines m d s fits ok
          (record { rd_fits = omega arith; rs1_fits = rs1_fits; rs2_fits = rs2_fits }) imm_fits o
          refl)
