-- ===== src/Privilege/Walk.antt =====
-- sandbox/mmu_pagewalker.c, and of sandbox/mmu.h the address that an access with paging goes to.
pub mod Sv32
use hyrule.Prelude.{
  ℕ, ◌+◌, ◌-◌, ◌*◌, ◌/◌, ◌%◌, ◌^◌, bit_and, bit_or, Bool, true, false, ◌&&◌, Option,
}
use hyrule.Prelude.{none, some, ◌==◌, if◌then◌else◌}
use hyrule.Prelude.Int.{ℤ, pos, negsuc}
use hyrule.Cache.Memory.{Array, store}
use hyrule.Privilege.Tlb.{TlbEntry, va_to_4k_tlb_entry, va_to_4m_tlb_entry, va_to_tlb_entry}

-- The guest's physical memory: the word that `pmr_direct` points to, `none` where no region holds the
-- address, and whether a region holds an address.
pub record PhysicalMemory : Type 0 where
  pub pte_at : ℕ → Option ℕ
  pub is_backed : ℕ → Bool

abbrev pub page_mask_4k : ℕ
page_mask_4k = 0xfffff000

abbrev pub page_mask_4m : ℕ
page_mask_4m = 0xffc00000

-- `read`, `write` or `execute` of `struct sv32_pte`.
abbrev pub is_leaf : ℕ → Bool
is_leaf pte = if pte / 2 % 2 == 0 && pte / 4 % 2 == 0 && pte / 8 % 2 == 0 then false else true

abbrev pub entry_of : ℕ → ℕ → ℕ → TlbEntry
entry_of mask va ppn = record {
  va_tag = bit_and va mask;
  pa_tag = bit_and (ppn * 2 ^ 12 % 2 ^ 32) mask;
  page_mask = mask;
  entry_valid = 1;
}

abbrev pub Walked : Type 0
Walked = Array TlbEntry × ℤ

module _ (mem : PhysicalMemory) (va : ℕ) (tlb : Array TlbEntry) (tlb_cap : ℕ) where
  -- The entry is written before the assertion that a region holds the page.
  abbrev pub filled : ℕ → ℕ → ℕ → Option Walked
  filled mask index ppn =
      if mem.is_backed (bit_and (ppn * 2 ^ 12 % 2 ^ 32) mask)
      then some (store tlb index (entry_of mask va ppn), pos 0)
      else none

  abbrev pub walk_level2 : Option ℕ → Option Walked
  walk_level2 none = none
  walk_level2 (some level2_pte) =
      if level2_pte % 2 == 0
      then some (tlb, negsuc 1)
      else filled page_mask_4k (va_to_4k_tlb_entry tlb_cap va) (level2_pte / 2 ^ 10)

  abbrev pub level2_address : ℕ → ℕ
  level2_address level1_pte =
      (level1_pte / 2 ^ 10 * 2 ^ 12 % 2 ^ 32 + bit_and (va / 2 ^ 12) 0x3ff * 4) % 2 ^ 32

  abbrev pub walk_level1 : Option ℕ → Option Walked
  walk_level1 none = none
  walk_level1 (some level1_pte) =
      if level1_pte % 2 == 0
      then some (tlb, negsuc 0)
      else (if is_leaf level1_pte
          then filled page_mask_4m (va_to_4m_tlb_entry tlb_cap va) (level1_pte / 2 ^ 10)
          else walk_level2 (mem.pte_at (level2_address level1_pte)))

  unfoldable pub walk_page_table : ℕ → Option Walked
  walk_page_table satp =
      if bit_and satp 0x80000000 == 0
      then none
      else walk_level1
          (mem.pte_at ((satp * 2 ^ 12 % 2 ^ 32 + bit_and (va / 2 ^ 22) 0x3ff * 4) % 2 ^ 32))

-- `entry->pa_tag | (linear_address & ~entry->page_mask)`; `none` is the null pointer, a page fault.
abbrev pub address_in : Array TlbEntry → ℕ → Option ℕ → Option ℕ
address_in tlb va none = none
address_in tlb va (some index) =
    some (bit_or (tlb index).pa_tag (bit_and va (2 ^ 32 - 1 - (tlb index).page_mask)))

abbrev pub after_walk : ℕ → ℕ → Option Walked → Option (Option ℕ)
after_walk tlb_cap va none = none
after_walk tlb_cap va (some (tlb, code)) = some (address_in tlb va (va_to_tlb_entry tlb tlb_cap va))

abbrev pub after_lookup : PhysicalMemory → ℕ → Array TlbEntry → ℕ → ℕ → Option ℕ → Option (Option ℕ)
after_lookup mem satp tlb tlb_cap va (some index) = some (address_in tlb va (some index))
after_lookup mem satp tlb tlb_cap va none =
    after_walk tlb_cap va (walk_page_table mem va tlb tlb_cap satp)

-- The address that `vmread` and `vmwrite` access with paging on, or `some none` for a page fault.
unfoldable pub access_address : PhysicalMemory → ℕ → Array TlbEntry → ℕ → ℕ → Option (Option ℕ)
access_address mem satp tlb tlb_cap va =
    after_lookup mem satp tlb tlb_cap va (va_to_tlb_entry tlb tlb_cap va)
