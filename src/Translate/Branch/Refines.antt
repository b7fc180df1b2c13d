-- ===== src/Translate/Branch/Refines.antt =====
-- The dispatch of translate_branch.c on funct3.
use hyrule.Prelude.{◌^◌, ◌<◌, true, ◌≡◌, refl}
use hyrule.Hart.{IsHart}
use hyrule.Host.Cpu.{Cpu}
use hyrule.Translate.Block.{Decoding, IsDecoding, Host, HostFits, Yields}
use hyrule.Rv.{execute}
use hyrule.Rv
use hyrule.Rv.Encode.{branch_funct3}
use hyrule.Translate.Branch.{riscv_branch_entry, riscv_beq_translator, riscv_bge_translator}
use hyrule.Translate.Branch.{riscv_bgeu_translator, riscv_blt_translator, riscv_bltu_translator}
use hyrule.Translate.Branch.{riscv_bne_translator}
use hyrule.Translate.Branch.Laws.{
  beq-Branches, bne-Branches, blt-Branches, bge-Branches, bltu-Branches,
}
use hyrule.Translate.Branch.Laws.{bgeu-Branches}

module _ {M : Type 0} (m : Host M) (dec : Decoding) (s : Cpu M) (fits : HostFits m)
    (ok : IsHart s.hart) (d : IsDecoding dec) (short : dec.imm < 2 ^ 12) where
  -- For every branch whose funct3 the decoding holds, with register indices below 32 and a 12-bit
  -- immediate, in a well-formed hart on a host whose hart structure does not wrap round the address
  -- space: the entry finds a block that ends the unit, and running it returns to the monitor with
  -- the pc of the specification, the target if the branch is taken and the next instruction if not.
  pub branch_entry-refines :
      (o : Rv.BranchOp)
      → dec.funct3 ≡ branch_funct3 o
      → Yields m s
          (riscv_branch_entry s.hart.pc dec)
          true
          (execute m.mmu (Rv.branch o dec.rs1_index dec.rs2_index dec.imm) s.hart)
  unfolding riscv_branch_entry branch_funct3 riscv_beq_translator riscv_bge_translator
      riscv_bgeu_translator riscv_blt_translator riscv_bltu_translator riscv_bne_translator execute
  branch_entry-refines Rv.beq f3 = record {
    block = riscv_beq_translator s.hart.pc dec;
    is_found = rw f3;
    unit = refl;
    outcome = (beq-Branches m dec s fits ok d short).eq;
  }
  branch_entry-refines Rv.bne f3 = record {
    block = riscv_bne_translator s.hart.pc dec;
    is_found = rw f3;
    unit = refl;
    outcome = (bne-Branches m dec s fits ok d short).eq;
  }
  branch_entry-refines Rv.blt f3 = record {
    block = riscv_blt_translator s.hart.pc dec;
    is_found = rw f3;
    unit = refl;
    outcome = (blt-Branches m dec s fits ok d short).eq;
  }
  branch_entry-refines Rv.bge f3 = record {
    block = riscv_bge_translator s.hart.pc dec;
    is_found = rw f3;
    unit = refl;
    outcome = (bge-Branches m dec s fits ok d short).eq;
  }
  branch_entry-refines Rv.bltu f3 = record {
    block = riscv_bltu_translator s.hart.pc dec;
    is_found = rw f3;
    unit = refl;
    outcome = (bltu-Branches m dec s fits ok d short).eq;
  }
  branch_entry-refines Rv.bgeu f3 = record {
    block = riscv_bgeu_translator s.hart.pc dec;
    is_found = rw f3;
    unit = refl;
    outcome = (bgeu-Branches m dec s fits ok d short).eq;
  }
