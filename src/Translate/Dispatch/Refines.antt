-- ===== src/Translate/Dispatch/Refines.antt =====
-- From the word in the guest's memory to the effect of its block, for every instruction.
use hyrule.Prelude.{Bool, true, false, ◌≡◌, arith}
use hyrule.Hart.{Hart, IsHart, IsMmu}
use hyrule.Host.Cpu.{Cpu}
use hyrule.Host.Instr.{fault}
use hyrule.Rv.{execute, reg}
use hyrule.Rv
use hyrule.Rv.Encode.{encode, IsInstr}
use hyrule.Translate.Block.{Host, HostFits, Yields}
use hyrule.Translate.MulDiv.Refines.{host_faults}
use hyrule.Translate.Dispatch.Table.{ends_unit}
use hyrule.Translate.Dispatch.Control.{
  lui-Translates, auipc-Translates, jal-Translates, jalr-Translates, branch-Translates,
}
use hyrule.Translate.Dispatch.Data.{
  load-Translates, store-Translates, op_imm-Translates, op-Translates, mul_div-Translates,
  mul_div-faults,
}
use hyrule.Translate.Dispatch.{OtherTranslators, translate}

-- Whether the host's division faults on the registers of the instruction.
unfoldable pub instr_faults : {M : Type 0} → Rv.Instr → Hart M → Bool
instr_faults (Rv.mul_div o rd rs1 rs2) h = host_faults o (reg h rs1) (reg h rs2)
instr_faults _ h = false

module _ {M : Type 0} (others : OtherTranslators) (m : Host M) (s : Cpu M) (fits : HostFits m)
    (ok : IsHart s.hart) where
  -- For every RV32IM instruction whose fields have the widths of its format, in every well-formed
  -- hart, on a host whose hart structure does not wrap round the address space, with reads that have
  -- their widths, and where the host's division does not fault on its operands: the table finds a
  -- block for the encoded word at the hart's pc, the block ends the translation unit exactly for
  -- jumps and branches, and running it ends as the specification's execution of the instruction
  -- ends, with the same hart.
  pub translate-refines :
      (i : Rv.Instr)
      → IsInstr i
      → IsMmu m.mmu
      → instr_faults i s.hart ≡ false
      → Yields m s (translate others s.hart.pc (encode i)) (ends_unit i) (execute m.mmu i s.hart)
  unfolding IsInstr instr_faults
  translate-refines (Rv.lui rd imm) (rd_fits, imm_fits) mmu fine =
      lui-Translates others m s fits ok rd imm rd_fits imm_fits
  translate-refines (Rv.auipc rd imm) (rd_fits, imm_fits) mmu fine =
      auipc-Translates others m s fits ok rd imm rd_fits imm_fits
  translate-refines (Rv.jal rd imm) (rd_fits, imm_fits) mmu fine =
      jal-Translates others m s fits ok rd imm rd_fits imm_fits
  translate-refines (Rv.jalr rd rs1 imm) (rd_fits, rs1_fits, imm_fits) mmu fine =
      jalr-Translates others m s fits ok rd rs1 imm rd_fits rs1_fits imm_fits
  translate-refines (Rv.branch o rs1 rs2 imm) (rs1_fits, rs2_fits, imm_fits) mmu fine =
      branch-Translates others m s fits ok o rs1 rs2 imm rs1_fits rs2_fits imm_fits
  translate-refines (Rv.load o rd rs1 imm) (rd_fits, rs1_fits, imm_fits) mmu fine =
      load-Translates others m s fits ok o rd rs1 imm rd_fits rs1_fits imm_fits mmu
  translate-refines (Rv.store o rs1 rs2 imm) (rs1_fits, rs2_fits, imm_fits) mmu fine =
      store-Translates others m s fits ok o rs1 rs2 imm rs1_fits rs2_fits imm_fits mmu
  translate-refines (Rv.op_imm o rd rs1 imm) (rd_fits, rs1_fits, imm_fits) mmu fine =
      op_imm-Translates others m s fits ok o rd rs1 imm rd_fits rs1_fits imm_fits
  translate-refines (Rv.op o rd rs1 rs2) (rd_fits, rs1_fits, rs2_fits) mmu fine =
      op-Translates others m s fits ok o rd rs1 rs2 rd_fits rs1_fits rs2_fits
  translate-refines (Rv.mul_div o rd rs1 rs2) (rd_fits, rs1_fits, rs2_fits) mmu fine =
      mul_div-Translates others m s fits ok o rd rs1 rs2 rd_fits rs1_fits rs2_fits fine

  -- For an instruction whose fields have their widths, in a well-formed hart on a host whose hart
  -- structure does not wrap round the address space, on whose operands the host's division faults
  -- (div and rem of -2^31 by -1, rem and remu by zero): the table finds a block that does not end
  -- the unit, and running the block ends in a fault of the host.
  pub translate-faults :
      (i : Rv.Instr)
      → IsInstr i
      → instr_faults i s.hart ≡ true
      → Yields m s (translate others s.hart.pc (encode i)) false fault
  unfolding IsInstr instr_faults
  translate-faults (Rv.mul_div o rd rs1 rs2) (rd_fits, rs1_fits, rs2_fits) faults =
      mul_div-faults others m s fits ok o rd rs1 rs2 rd_fits rs1_fits rs2_fits faults
  translate-faults _ widths faults = absurd (ground arith)
