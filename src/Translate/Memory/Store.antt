-- ===== src/Translate/Memory/Store.antt =====
-- The dispatch of translate_memory_store.c on funct3.
use hyrule.Prelude.{◌^◌, ◌<◌, false, ◌≡◌, refl}
use hyrule.Hart.{IsMmu}
use hyrule.Hart.{IsHart}
use hyrule.Host.Cpu.{Cpu}
use hyrule.Translate.Block.{Decoding, IsDecoding, Host, HostFits, Yields}
use hyrule.Rv.{execute}
use hyrule.Rv
use hyrule.Rv.Encode.{store_funct3}
use hyrule.Translate.Memory.{riscv_memory_store_entry, riscv_sb_translator, riscv_sh_translator}
use hyrule.Translate.Memory.{riscv_sw_translator}
use hyrule.Translate.Memory.Laws.{sb-Stores, sh-Stores, sw-Stores}

module _ {M : Type 0} (m : Host M) (dec : Decoding) (s : Cpu M) (fits : HostFits m)
    (ok : IsHart s.hart) (d : IsDecoding dec) (short : dec.imm < 2 ^ 12) (mmu : IsMmu m.mmu) where
  -- For every store whose funct3 the decoding holds, with register indices below 32, a 12-bit
  -- immediate and reads that have their widths, in a well-formed hart on a host whose hart structure
  -- does not wrap round the address space: the entry finds a block that does not end the unit, and
  -- running it ends as the specification's store of the value cut to its width, or with no return
  -- where the memory does not answer.
  pub store_entry-refines :
      (o : Rv.StoreOp)
      → dec.funct3 ≡ store_funct3 o
      → Yields m s
          (riscv_memory_store_entry dec)
          false
          (execute m.mmu (Rv.store o dec.rs1_index dec.rs2_index dec.imm) s.hart)
  unfolding riscv_memory_store_entry store_funct3 riscv_sb_translator riscv_sh_translator
      riscv_sw_translator execute
  store_entry-refines Rv.sb f3 = record {
    block = riscv_sb_translator dec;
    is_found = rw f3;
    unit = refl;
    outcome = (sb-Stores m dec s fits ok d short mmu).eq;
  }
  store_entry-refines Rv.sh f3 = record {
    block = riscv_sh_translator dec;
    is_found = rw f3;
    unit = refl;
    outcome = (sh-Stores m dec s fits ok d short mmu).eq;
  }
  store_entry-refines Rv.sw f3 = record {
    block = riscv_sw_translator dec;
    is_found = rw f3;
    unit = refl;
    outcome = (sw-Stores m dec s fits ok d short mmu).eq;
  }
