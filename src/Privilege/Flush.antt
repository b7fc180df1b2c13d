-- ===== src/Privilege/Flush.antt =====
-- What a write of satp and `sfence.vma` leave of the cached translations, of addresses and of code.
use hyrule.Prelude.{ℕ, ◌^◌, ◌≡◌, refl, none, some}
use hyrule.Cache.{search_translation_item}
use hyrule.Cache.Memory.{store}
use hyrule.Cache.Search.{search}
use hyrule.Privilege.{PrivilegedHart}
use hyrule.Privilege.Tlb.{va_to_tlb_entry, invalidate_tlb-none}
use hyrule.Privilege.Csr.{write_blob}
use hyrule.Privilege.Supervisor.{sfence_vma_callback, csr_satp_write}

-- No address has an entry in a TLB, and no pc a block in the translation cache.
abbrev pub Forgets : PrivilegedHart → Type 0
Forgets next =
    (va : ℕ)
    → (va_to_tlb_entry next.itlb next.itlb_cap va ≡ none)
      × (va_to_tlb_entry next.dtlb next.dtlb_cap va ≡ none)
      × (search_translation_item next.cache va ≡ some none)

sfence_vma_callback-Forgets :
    (h : PrivilegedHart) (i d : ℕ)
    → h.itlb_cap ≡ 2 ^ i
    → h.dtlb_cap ≡ 2 ^ d
    → Forgets (sfence_vma_callback h)
unfolding search_translation_item search
sfence_vma_callback-Forgets h i d icap dcap va =
    (rw icap (invalidate_tlb-none h.itlb i va), rw dcap (invalidate_tlb-none h.dtlb d va), refl)

-- With capacities of the TLBs that are powers of two: after a write of satp the value stands in it,
-- no address has an entry in either TLB, and the translation cache finds no block for any pc.
pub csr_satp_write-Forgets :
    (h : PrivilegedHart) (value i d : ℕ)
    → h.itlb_cap ≡ 2 ^ i
    → h.dtlb_cap ≡ 2 ^ d
    → ((csr_satp_write h value).csrs 0x180 ≡ value) × Forgets (csr_satp_write h value)
unfolding csr_satp_write store
csr_satp_write-Forgets h value i d icap dcap =
    (refl, sfence_vma_callback-Forgets (write_blob 0x180 h value) i d icap dcap)
