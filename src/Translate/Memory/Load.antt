-- ===== src/Translate/Memory/Load.antt =====
-- The dispatch of translate_memory_load.c on funct3.
use hyrule.Prelude.{◌^◌, ◌<◌, false, ◌≡◌, refl}
use hyrule.Hart.{IsMmu}
use hyrule.Hart.{IsHart}
use hyrule.Host.Cpu.{Cpu}
use hyrule.Translate.Block.{Decoding, IsDecoding, Host, HostFits, Yields}
use hyrule.Rv.{execute}
use hyrule.Rv
use hyrule.Rv.Encode.{load_funct3}
use hyrule.Translate.Memory.{riscv_memory_load_entry, riscv_lb_translator, riscv_lbu_translator}
use hyrule.Translate.Memory.{riscv_lh_translator, riscv_lhu_translator, riscv_lw_translator}
use hyrule.Translate.Memory.Laws.{lb-Loads, lh-Loads, lw-Loads, lbu-Loads, lhu-Loads}

module _ {M : Type 0} (m : Host M) (dec : Decoding) (s : Cpu M) (fits : HostFits m)
    (ok : IsHart s.hart) (d : IsDecoding dec) (short : dec.imm < 2 ^ 12) (mmu : IsMmu m.mmu) where
  -- For every load whose funct3 the decoding holds, with register indices below 32, a 12-bit
  -- immediate and reads that have their widths, in a well-formed hart on a host whose hart structure
  -- does not wrap round the address space: the entry finds a block that does not end the unit, and
  -- running it ends as the specification's load, with the extended value in the destination
  -- register, or with no return where the memory does not answer.
  pub load_entry-refines :
      (o : Rv.LoadOp)
      → dec.funct3 ≡ load_funct3 o
      → Yields m s
          (riscv_memory_load_entry dec)
          false
          (execute m.mmu (Rv.load o dec.rd_index dec.rs1_index dec.imm) s.hart)
  unfolding riscv_memory_load_entry load_funct3 riscv_lb_translator riscv_lbu_translator
      riscv_lh_translator riscv_lhu_translator riscv_lw_translator execute
  load_entry-refines Rv.lb f3 = record {
    block = riscv_lb_translator dec;
    is_found = rw f3;
    unit = refl;
    outcome = (lb-Loads m dec s fits ok d short mmu).eq;
  }
  load_entry-refines Rv.lh f3 = record {
    block = riscv_lh_translator dec;
    is_found = rw f3;
    unit = refl;
    outcome = (lh-Loads m dec s fits ok d short mmu).eq;
  }
  load_entry-refines Rv.lw f3 = record {
    block = riscv_lw_translator dec;
    is_found = rw f3;
    unit = refl;
    outcome = (lw-Loads m dec s fits ok d short mmu).eq;
  }
  load_entry-refines Rv.lbu f3 = record {
    block = riscv_lbu_translator dec;
    is_found = rw f3;
    unit = refl;
    outcome = (lbu-Loads m dec s fits ok d short mmu).eq;
  }
  load_entry-refines Rv.lhu f3 = record {
    block = riscv_lhu_translator dec;
    is_found = rw f3;
    unit = refl;
    outcome = (lhu-Loads m dec s fits ok d short mmu).eq;
  }
