-- ===== src/Privilege/Tlb.antt =====
-- sandbox/mmu_tlb.h and mmu_tlb.c: the cache of address translations, one entry for each index.
use native.Mathlib.Nat.{one-le-pow}
use hyrule.Prelude.{ℕ, zero, suc, ◌+◌, ◌-◌, ◌/◌, ◌%◌, ◌^◌, ◌≡◌, refl, inl, inr, arith}
use hyrule.Prelude.{bit_and, Bool-cases, ◌&&◌, Option, none, some}
use hyrule.Prelude.{leb, ltb, ◌==◌, if◌then◌else◌}
use hyrule.Prelude.Bits.{bit_and_mask}
use hyrule.Cache.Memory.{Array, store}

-- `struct tlb_entry` without its pointers to the page table.
pub record TlbEntry : Type 0 where
  pub va_tag : ℕ
  pub pa_tag : ℕ
  pub page_mask : ℕ
  pub entry_valid : ℕ

-- The loop's rounds left, and its index.
unfoldable pub invalidate_loop : ℕ → ℕ → Array TlbEntry → Array TlbEntry
invalidate_loop zero idx tlb = tlb
invalidate_loop (suc n) idx tlb =
    invalidate_loop n (idx + 1) (store tlb idx (record (tlb idx) { entry_valid = 0 }))

unfoldable pub invalidate_tlb : Array TlbEntry → ℕ → Array TlbEntry
invalidate_tlb tlb_base tlb_cap = invalidate_loop tlb_cap 0 tlb_base

-- The indices of the entries; the capacity is a power of two.
abbrev pub va_to_4k_tlb_entry : ℕ → ℕ → ℕ
va_to_4k_tlb_entry tlb_cap va = bit_and (va / 2 ^ 12) (tlb_cap - 1)

abbrev pub va_to_4m_tlb_entry : ℕ → ℕ → ℕ
va_to_4m_tlb_entry tlb_cap va = bit_and (va / 2 ^ 22) (tlb_cap - 1)

-- The tag is not compared with the address. `none` is the null pointer.
unfoldable pub va_to_tlb_entry : Array TlbEntry → ℕ → ℕ → Option ℕ
va_to_tlb_entry tlb_base tlb_cap va =
    let small = va_to_4k_tlb_entry tlb_cap va in
    let large = va_to_4m_tlb_entry tlb_cap va in
    let found = if (tlb_base small).entry_valid == 0 then large else small in
    if (tlb_base found).entry_valid == 0 then none else some found

invalidate_loop-valid :
    (n idx : ℕ) (tlb : Array TlbEntry) (i : ℕ)
    → (invalidate_loop n idx tlb i).entry_valid
      ≡ (if leb idx i && ltb i (idx + n) then 0 else (tlb i).entry_valid)
unfolding invalidate_loop store
invalidate_loop-valid zero idx tlb i = ground arith
invalidate_loop-valid (suc n) idx tlb i =
    rw (invalidate_loop-valid n (idx + 1) (store tlb idx (record (tlb idx) { entry_valid = 0 })) i)
      (elim (Bool-cases (i == idx)) [
        | inl same ↦ rw (store, same) (ground arith)
        | inr other ↦ rw (store, other) (ground arith)
      ])

-- After the invalidation no address has an entry.
pub invalidate_tlb-none :
    (tlb : Array TlbEntry) (k va : ℕ)
    → va_to_tlb_entry (invalidate_tlb tlb (2 ^ k)) (2 ^ k) va ≡ none
unfolding invalidate_tlb va_to_tlb_entry
invalidate_tlb-none tlb k va =
    let gone : (x : ℕ) → (invalidate_loop (2 ^ k) 0 tlb (bit_and x (2 ^ k - 1))).entry_valid ≡ 0 =
      λ x.
        rw (bit_and_mask k x, invalidate_loop-valid (2 ^ k) 0 tlb (x % 2 ^ k))
          (ground (arith, one-le-pow k 2)) in
    rw (gone (va / 2 ^ 12), gone (va / 2 ^ 22)) refl
