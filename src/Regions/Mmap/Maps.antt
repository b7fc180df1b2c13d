-- ===== src/Regions/Mmap/Maps.antt =====
-- `allocate_mmap_region` and `do_mmap` of sandbox/vfs.c: where a mapping goes, and what it leaves.
use hyrule.Prelude.{ℕ, ◌+◌, ◌*◌, ◌/◌, ◌%◌, ◌^◌, ◌≤◌, ◌<◌, ◌≡◌, refl, ◌⊎◌, inl, inr, arith, bit_and}
use hyrule.Prelude.{true, false, Bool-cases, Option, none, some, ◌==◌}
use hyrule.Prelude.Bits.{bit_and_mask}
use hyrule.Prelude.Masks.{bit_and_align}
use hyrule.Prelude.Returns.{Returns}
use hyrule.Regions.{VirtualMachine, is_range_eligible, search_free_mmap_region}
use hyrule.Regions.Layout.{IsLayout}
use hyrule.Regions.Free.{
  IsFree, FreesRegion, gap_below, is_range_eligible-IsFree, search_free_mmap_region-FreesRegion,
}
use hyrule.Regions.Register.{Registers, register_pm_region_operation-Registers}
use hyrule.Regions.Mmap.{
  page_roundup, mapping, mmap_setup, is_proposal_eligible, Result, mapped_at, map_found,
  allocate_mmap_region, enomem,
}

-- For an address at least 4096 below 2^32: rounding up gives the next multiple of 4096.
pub page_roundup-multiple :
    (addr : ℕ)
    → addr + 4096 ≤ 2 ^ 32
    → (page_roundup addr % 4096 ≡ 0)
      × (addr ≤ page_roundup addr)
      × (page_roundup addr < addr + 4096)
unfolding page_roundup
page_roundup-multiple addr small =
    let low : bit_and addr 4095 ≡ addr % 4096 = bit_and_mask 12 addr in
    let high : bit_and addr 4294963200 ≡ addr / 4096 * 4096 =
      bit_and_align 12 20 addr (omega arith) in
    rw (low, high) (ground arith)

module _ (vm : VirtualMachine) (len mprot host_base : ℕ) where
  -- A mapping at a multiple of 4096, of addresses that were free; the regions are those that were
  -- there and the new one.
  abbrev pub MapsAt : Result → Type 0
  MapsAt (next, addr) =
      (addr % 4096 ≡ 0)
      × (addr + len < 2 ^ 32)
      × IsFree vm addr (addr + len)
      × Registers vm (mapping addr len mprot host_base) next

  -- The error, with nothing changed, where no gap is longer than the mapping and a page.
  abbrev pub RefusesMap : Result → Type 0
  RefusesMap (next, ret) =
      (next ≡ vm)
      × (ret ≡ enomem)
      × ((i : ℕ) → i < vm.nr_pmr_ops → gap_below vm.pmr_ops i ≤ len + 4096)

  abbrev pub Maps : Result → Type 0
  Maps r = MapsAt r ⊎ RefusesMap r

  module _ (layout : IsLayout vm.pmr_ops vm.nr_pmr_ops) (room : vm.nr_pmr_ops < 128)
      (some_bytes : 0 < len) where
    mapped_at-MapsAt :
        (addr : ℕ) (o : Option VirtualMachine)
        → addr % 4096 ≡ 0
        → addr + len < 2 ^ 32
        → IsFree vm addr (addr + len)
        → Returns o (Registers vm (mapping addr len mprot host_base))
        → Returns (mapped_at addr o) Maps
    mapped_at-MapsAt addr none aligned fits free bad = bad
    mapped_at-MapsAt addr (some next) aligned fits free registers =
        inl (aligned, fits, free, registers)

    mmap_setup-Maps :
        (addr : ℕ)
        → addr % 4096 ≡ 0
        → addr + len < 2 ^ 32
        → IsFree vm addr (addr + len)
        → Returns (mapped_at addr (mmap_setup vm addr len mprot host_base)) Maps
    unfolding mmap_setup mapping
    mmap_setup-Maps addr aligned fits free =
        let e : (addr + len) % 2 ^ 32 ≡ addr + len = omega arith in
        mapped_at-MapsAt addr _ aligned fits free (
          register_pm_region_operation-Registers vm (mapping addr len mprot host_base) layout
            (record { filled = rw e (omega arith); fits = rw e fits }) (rw e free) room
            (omega arith) (omega arith))

    map_found-Maps :
        (o : Option ℕ)
        → Returns o (FreesRegion vm (len + 4096))
        → Returns (map_found vm len mprot host_base o) Maps
    map_found-Maps none bad = bad
    map_found-Maps (some found) (inl (e, small)) = rw e (inr (refl, refl, small))
    map_found-Maps (some found) (inr (above, fits, free)) =
        let (aligned, up, near) = page_roundup-multiple found (omega arith) in
        let not_zero : (found == 0) ≡ false = ground arith in
        rw not_zero (
          mmap_setup-Maps (page_roundup found) aligned (omega arith)
            (λ i lt. ground (arith, free i lt)))

    -- With the regions in order and fewer than 128 of them, a length from 1 to 2^32 - 4097, and a
    -- proposed address that leaves room for the length and 4096 below 2^32: the call returns,
    -- without a failed assertion, either a multiple of 4096 from which on that many addresses were
    -- free, with one region more that is this mapping, the regions in order; or the error ENOMEM,
    -- with nothing changed, and then no region has a gap below it longer than the length and 4096.
    pub allocate_mmap_region-Maps :
        (proposal_addr : ℕ)
        → proposal_addr + 4096 + len ≤ 2 ^ 32
        → len + 4096 < 2 ^ 32
        → Returns (allocate_mmap_region vm proposal_addr len mprot host_base) Maps
    unfolding allocate_mmap_region is_proposal_eligible
    allocate_mmap_region-Maps proposal_addr fits small =
        let (aligned, up, near) = page_roundup-multiple proposal_addr (omega arith) in
        let e : (page_roundup proposal_addr + len) % 2 ^ 32 ≡ page_roundup proposal_addr + len =
          omega arith in
        elim (Bool-cases (is_proposal_eligible vm proposal_addr len)) [
          | inl eligible ↦
              let free : is_range_eligible vm (page_roundup proposal_addr)
                    ((page_roundup proposal_addr + len) % 2 ^ 32)
                  ≡ true =
                ground (arith, eligible) in
              rw eligible (
                mmap_setup-Maps (page_roundup proposal_addr) aligned (omega arith) (
                  (is_range_eligible-IsFree vm (page_roundup proposal_addr)
                      (page_roundup proposal_addr + len)).0
                    (rw e at free)))
          | inr other ↦ rw other (
              map_found-Maps (search_free_mmap_region vm len)
                (search_free_mmap_region-FreesRegion vm len small layout))
        ]
