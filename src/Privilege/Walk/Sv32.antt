-- ===== src/Privilege/Walk/Sv32.antt =====
-- On a miss of the TLB, an access goes where the page table says.
use hyrule.Prelude.{ℕ, ◌+◌, ◌*◌, ◌/◌, ◌%◌, ◌^◌, ◌≤◌, ◌<◌, ◌≡◌, refl, inl, inr, arith}
use hyrule.Prelude.{Bool, bit_and, true, false, Bool-cases, Option, none, some, ◌==◌, ap, ◌∙◌}
use hyrule.Prelude.{if◌then◌else◌}
use hyrule.Prelude.Bits.{bit_and_mask, bit_and_power, bit_or_fields}
use hyrule.Prelude.Masks.{bit_and_align}
use hyrule.Cache.Memory.{Array, store}
use hyrule.Privilege.Tlb.{TlbEntry, va_to_4k_tlb_entry, va_to_4m_tlb_entry, va_to_tlb_entry}
use hyrule.Privilege.Walk.{
  PhysicalMemory, page_mask_4k, page_mask_4m, is_leaf, entry_of, filled, walk_level2,
  level2_address, walk_level1, walk_page_table, address_in, after_walk, access_address,
}

-- An entry leads to the next table where its three permission bits, R, W and X, are all zero.
abbrev is_pointer : ℕ → Bool
is_pointer pte = pte / 2 % 8 == 0

is_leaf-is_pointer : (pte : ℕ) → (if is_pointer pte then false else true) ≡ is_leaf pte
is_leaf-is_pointer pte = ground arith

-- The translation of sv32, with physical addresses of 32 bits: `none` where no region holds a table or
-- the page, `some none` for a page fault.
module _ (mem : PhysicalMemory) (va : ℕ) where
  abbrev page : ℕ → ℕ → Option (Option ℕ)
  page base offset = if mem.is_backed base then some (some (base + offset)) else none

  abbrev sv32_level2 : Option ℕ → Option (Option ℕ)
  sv32_level2 none = none
  sv32_level2 (some pte) =
      if pte % 2 == 0 then some none else page (pte / 2 ^ 10 % 2 ^ 20 * 2 ^ 12) (va % 2 ^ 12)

  abbrev sv32_level1 : Option ℕ → Option (Option ℕ)
  sv32_level1 none = none
  sv32_level1 (some pte) =
      if pte % 2 == 0
      then some none
      else (if is_pointer pte
          then sv32_level2 (mem.pte_at (pte / 2 ^ 10 % 2 ^ 20 * 2 ^ 12 + va / 2 ^ 12 % 2 ^ 10 * 4))
          else page (pte / 2 ^ 20 % 2 ^ 10 * 2 ^ 22) (va % 2 ^ 22))

  abbrev pub sv32_address : ℕ → Option (Option ℕ)
  sv32_address satp = sv32_level1 (mem.pte_at (satp % 2 ^ 20 * 2 ^ 12 + va / 2 ^ 22 * 4))

-- The choice between two indices, of which the first is tried first.
abbrev pick : Array TlbEntry → ℕ → ℕ → Option ℕ
pick tlb s l =
    let found = if (tlb s).entry_valid == 0 then l else s in
    if (tlb found).entry_valid == 0 then none else some found

pick_first :
    (tlb : Array TlbEntry) (s l : ℕ) (e : TlbEntry)
    → (e.entry_valid == 0) ≡ false
    → pick (store tlb s e) s l ≡ some s
unfolding store
pick_first tlb s l e valid =
    let same : (s == s) ≡ true = ground arith in rw (store, same, valid, store, same, valid) refl

pick_second :
    (tlb : Array TlbEntry) (s l : ℕ) (e : TlbEntry)
    → ((tlb s).entry_valid == 0) ≡ true
    → (e.entry_valid == 0) ≡ false
    → pick (store tlb l e) s l ≡ some l
unfolding store
pick_second tlb s l e empty valid =
    let here : (l == l) ≡ true = ground arith in
    elim (Bool-cases (s == l)) [
      | inl same ↦ let z : s ≡ l = ground arith in rw (z, pick_first tlb l l e valid) refl
      | inr other ↦ rw (store, other, empty, store, here, valid) refl
    ]

module _ (mem : PhysicalMemory) (va : ℕ) (tlb : Array TlbEntry) (tlb_cap : ℕ)
    (va_fits : va < 2 ^ 32) (miss : va_to_tlb_entry tlb tlb_cap va ≡ none) where
  abbrev small : ℕ
  small = va_to_4k_tlb_entry tlb_cap va

  abbrev large : ℕ
  large = va_to_4m_tlb_entry tlb_cap va

  small_empty : ((tlb small).entry_valid == 0) ≡ true
  unfolding va_to_tlb_entry
  small_empty = elim (Bool-cases ((tlb small).entry_valid == 0)) [
    | inl empty ↦ empty
    | inr full ↦ absurd (ground (arith, rw (va_to_tlb_entry, full, full) at miss))
  ]

  found_small :
      (e : TlbEntry)
      → (e.entry_valid == 0) ≡ false
      → va_to_tlb_entry (store tlb small e) tlb_cap va ≡ some small
  unfolding va_to_tlb_entry
  found_small e valid = pick_first tlb small large e valid

  found_large :
      (e : TlbEntry)
      → (e.entry_valid == 0) ≡ false
      → va_to_tlb_entry (store tlb large e) tlb_cap va ≡ some large
  unfolding va_to_tlb_entry
  found_large e valid = pick_second tlb small large e small_empty valid

  stored : (index : ℕ) (e : TlbEntry) → store tlb index e index ≡ e
  unfolding store
  stored index e = let same : (index == index) ≡ true = ground arith in rw same refl

  -- The page's base and the offset in it.
  page_4k :
      (ppn : ℕ)
      → address_in (store tlb small (entry_of page_mask_4k va ppn)) va (some small)
        ≡ some (ppn % 2 ^ 20 * 2 ^ 12 + va % 2 ^ 12)
  page_4k ppn =
      let base : bit_and (ppn * 2 ^ 12 % 2 ^ 32) page_mask_4k ≡ ppn % 2 ^ 20 * 2 ^ 12 =
        bit_and_align 12 20 (ppn * 2 ^ 12 % 2 ^ 32) (omega arith) ∙ omega arith in
      let offset : bit_and va 4095 ≡ va % 2 ^ 12 = bit_and_mask 12 va in
      rw (stored small (entry_of page_mask_4k va ppn), base, offset)
        (ap some (bit_or_fields 12 (ppn % 2 ^ 20) (va % 2 ^ 12) (omega arith)))

  page_4m :
      (ppn : ℕ)
      → address_in (store tlb large (entry_of page_mask_4m va ppn)) va (some large)
        ≡ some (ppn / 2 ^ 10 % 2 ^ 10 * 2 ^ 22 + va % 2 ^ 22)
  page_4m ppn =
      let base : bit_and (ppn * 2 ^ 12 % 2 ^ 32) page_mask_4m ≡ ppn / 2 ^ 10 % 2 ^ 10 * 2 ^ 22 =
        bit_and_align 22 10 (ppn * 2 ^ 12 % 2 ^ 32) (omega arith) ∙ omega arith in
      let offset : bit_and va 4194303 ≡ va % 2 ^ 22 = bit_and_mask 22 va in
      rw (stored large (entry_of page_mask_4m va ppn), base, offset)
        (ap some (bit_or_fields 22 (ppn / 2 ^ 10 % 2 ^ 10) (va % 2 ^ 22) (omega arith)))

  filled_4k :
      (ppn : ℕ)
      → after_walk tlb_cap va (filled mem va tlb tlb_cap page_mask_4k small ppn)
        ≡ page mem va (ppn % 2 ^ 20 * 2 ^ 12) (va % 2 ^ 12)
  filled_4k ppn =
      let base : bit_and (ppn * 2 ^ 12 % 2 ^ 32) page_mask_4k ≡ ppn % 2 ^ 20 * 2 ^ 12 =
        bit_and_align 12 20 (ppn * 2 ^ 12 % 2 ^ 32) (omega arith) ∙ omega arith in
      elim (Bool-cases (mem.is_backed (ppn % 2 ^ 20 * 2 ^ 12))) [
        | inl backed ↦
            let tag : mem.is_backed (bit_and (ppn * 2 ^ 12 % 2 ^ 32) page_mask_4k) ≡ true =
              rw base backed in
            rw (tag, backed, found_small (entry_of page_mask_4k va ppn) refl)
              (ap some (page_4k ppn))
        | inr bare ↦ rw (base, bare) refl
      ]

  filled_4m :
      (ppn : ℕ)
      → after_walk tlb_cap va (filled mem va tlb tlb_cap page_mask_4m large ppn)
        ≡ page mem va (ppn / 2 ^ 10 % 2 ^ 10 * 2 ^ 22) (va % 2 ^ 22)
  filled_4m ppn =
      let base : bit_and (ppn * 2 ^ 12 % 2 ^ 32) page_mask_4m ≡ ppn / 2 ^ 10 % 2 ^ 10 * 2 ^ 22 =
        bit_and_align 22 10 (ppn * 2 ^ 12 % 2 ^ 32) (omega arith) ∙ omega arith in
      elim (Bool-cases (mem.is_backed (ppn / 2 ^ 10 % 2 ^ 10 * 2 ^ 22))) [
        | inl backed ↦
            let tag : mem.is_backed (bit_and (ppn * 2 ^ 12 % 2 ^ 32) page_mask_4m) ≡ true =
              rw base backed in
            rw (tag, backed, found_large (entry_of page_mask_4m va ppn) refl)
              (ap some (page_4m ppn))
        | inr bare ↦ rw (base, bare) refl
      ]

  level2-is :
      (o : Option ℕ)
      → after_walk tlb_cap va (walk_level2 mem va tlb tlb_cap o) ≡ sv32_level2 mem va o
  level2-is none = refl
  level2-is (some pte) = elim (Bool-cases (pte % 2 == 0)) [
    | inl invalid ↦ rw (invalid, miss) refl
    | inr valid ↦ rw valid (filled_4k (pte / 2 ^ 10))
  ]

  level1-is :
      (o : Option ℕ)
      → after_walk tlb_cap va (walk_level1 mem va tlb tlb_cap o) ≡ sv32_level1 mem va o
  level1-is none = refl
  level1-is (some pte) = elim (Bool-cases (pte % 2 == 0)) [
    | inl invalid ↦ rw (invalid, miss) refl
    | inr valid ↦ elim (Bool-cases (is_leaf pte)) [
      | inl leaf ↦
          let whole : pte / 2 ^ 20 ≡ pte / 2 ^ 10 / 2 ^ 10 = omega arith in
          let level : is_pointer pte ≡ false = ground (arith, is_leaf-is_pointer pte) in
          rw (valid, leaf, level, whole) (filled_4m (pte / 2 ^ 10))
      | inr table ↦
          let index : bit_and (va / 2 ^ 12) 0x3ff ≡ va / 2 ^ 12 % 2 ^ 10 =
            bit_and_mask 10 (va / 2 ^ 12) in
          let address : level2_address mem va tlb tlb_cap pte
              ≡ pte / 2 ^ 10 % 2 ^ 20 * 2 ^ 12 + va / 2 ^ 12 % 2 ^ 10 * 4 =
            rw index (omega arith) in
          let level : is_pointer pte ≡ true = ground (arith, is_leaf-is_pointer pte) in
          rw (valid, table, level, address)
            (level2-is (mem.pte_at (pte / 2 ^ 10 % 2 ^ 20 * 2 ^ 12 + va / 2 ^ 12 % 2 ^ 10 * 4)))
    ]
  ]

  -- For an address of 32 bits without an entry in the TLB and a satp of 32 bits with paging on: the
  -- access goes where the two-level page table of sv32 translates the address to, for pages of 4 KB
  -- and of 4 MB, it is a page fault exactly where an entry on the way is not valid, and an assertion
  -- fails exactly where no region holds a table's entry or the page.
  pub access_address-sv32_address :
      (satp : ℕ)
      → 2 ^ 31 ≤ satp
      → satp < 2 ^ 32
      → access_address mem satp tlb tlb_cap va ≡ sv32_address mem va satp
  unfolding access_address walk_page_table
  access_address-sv32_address satp enabled fits =
      let paging : bit_and satp 0x80000000 ≡ 2 ^ 31 = bit_and_power 31 satp ∙ omega arith in
      let index : bit_and (va / 2 ^ 22) 0x3ff ≡ va / 2 ^ 22 =
        bit_and_mask 10 (va / 2 ^ 22) ∙ omega arith in
      let address : (satp * 2 ^ 12 % 2 ^ 32 + va / 2 ^ 22 * 4) % 2 ^ 32
          ≡ satp % 2 ^ 20 * 2 ^ 12 + va / 2 ^ 22 * 4 =
        omega arith in
      rw (miss, paging, index, address)
        (level1-is (mem.pte_at (satp % 2 ^ 20 * 2 ^ 12 + va / 2 ^ 22 * 4)))
