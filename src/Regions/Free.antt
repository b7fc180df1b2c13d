-- ===== src/Regions/Free.antt =====
-- `is_range_eligible` and `search_free_mmap_region` of sandbox/pm_region.c: which addresses are free.
use hyrule.Prelude.{
  ℕ, zero, suc, ◌+◌, ◌-◌, ◌%◌, ◌^◌, ◌≤◌, ◌<◌, ◌≡◌, refl, ◌↔◌, ◌⊎◌, inl, inr, arith,
}
use hyrule.Prelude.{true, Bool-cases, ◌==◌}
use hyrule.Prelude.Returns.{Returns}
use hyrule.Cache.Memory.{Array}
use hyrule.Regions.{
  PmRegionOperation, VirtualMachine, range_loop, is_range_eligible, sub32, is_gap_larger, gap_loop,
  search_free_mmap_region,
}
use hyrule.Regions.Layout.{IsLayout}

-- The region ends at `low` or below it, or begins at `high` or above it.
abbrev pub IsApart : PmRegionOperation → ℕ → ℕ → Type 0
IsApart r low high = (r.addr_high ≤ low) ⊎ (high ≤ r.addr_low)

abbrev pub IsFree : VirtualMachine → ℕ → ℕ → Type 0
IsFree vm low high = (i : ℕ) → i < vm.nr_pmr_ops → IsApart (vm.pmr_ops i) low high

module _ (vm : VirtualMachine) (low high : ℕ) where
  range_loop-IsFree :
      (n idx : ℕ)
      → range_loop vm low high n idx ≡ true
      → (i : ℕ) → idx ≤ i
      → i < idx + n
      → IsApart (vm.pmr_ops i) low high
  unfolding range_loop
  range_loop-IsFree zero idx run i le lt = absurd (omega arith)
  range_loop-IsFree (suc n) idx run i le lt = elim (Bool-cases (i == idx)) [
    | inl same ↦ let e : i ≡ idx = ground arith in rw e (ground arith)
    | inr other ↦ range_loop-IsFree n (idx + 1) (ground arith) i (ground arith) (omega arith)
  ]

  IsFree-range_loop :
      (n idx : ℕ)
      → ((i : ℕ) → idx ≤ i → i < idx + n → IsApart (vm.pmr_ops i) low high)
      → range_loop vm low high n idx ≡ true
  unfolding range_loop
  IsFree-range_loop zero idx apart = refl
  IsFree-range_loop (suc n) idx apart =
      let rest = IsFree-range_loop n (idx + 1) (λ i le lt. apart i (omega arith) (omega arith)) in
      rw rest (ground (arith, apart idx (omega arith) (omega arith)))

  -- For all bounds: the test says yes exactly if each region ends at or below the lower bound or
  -- begins at or above the upper one.
  pub is_range_eligible-IsFree : (is_range_eligible vm low high ≡ true) ↔ IsFree vm low high
  unfolding is_range_eligible
  is_range_eligible-IsFree = (
    λ run i lt. range_loop-IsFree vm.nr_pmr_ops 0 run i (omega arith) (omega arith),
    λ free. IsFree-range_loop vm.nr_pmr_ops 0 (λ i le lt. free i (omega arith)),
  )

-- The addresses between a region and the one below it, or address 0.
abbrev pub gap_below : Array PmRegionOperation → ℕ → ℕ
gap_below ops zero = (ops 0).addr_low
gap_below ops (suc idx) = (ops (suc idx)).addr_low - (ops idx).addr_high

-- An address with `len` free ones from it on, or 0 where no gap is longer than `len`.
abbrev pub FreesRegion : VirtualMachine → ℕ → ℕ → Type 0
FreesRegion vm len found =
    ((found ≡ 0) × ((i : ℕ) → i < vm.nr_pmr_ops → gap_below vm.pmr_ops i ≤ len))
    ⊎ ((0 < found) × (found + len < 2 ^ 32) × IsFree vm found (found + len))

module _ (vm : VirtualMachine) (len : ℕ) (fits : len < 2 ^ 32)
    (layout : IsLayout vm.pmr_ops vm.nr_pmr_ops) where
  gap-is :
      (idx : ℕ)
      → idx < vm.nr_pmr_ops
      → (is_gap_larger vm len idx ≡ true) ↔ (len < gap_below vm.pmr_ops idx)
  unfolding is_gap_larger sub32
  gap-is zero lt = (λ h. ground arith, λ h. ground arith)
  gap-is (suc idx) lt =
      let below = layout.ascending idx (suc idx) (omega arith) lt in
      let is = layout.regions (suc idx) lt in
      let filled = is.filled in
      let top = is.fits in
      (λ h. ground (arith, below, filled, top), λ h. ground (arith, below, filled, top))

  -- Behind a gap that is long enough, the addresses below the region are free.
  gap_frees :
      (idx found : ℕ)
      → idx < vm.nr_pmr_ops
      → len < gap_below vm.pmr_ops idx
      → found ≡ sub32 (vm.pmr_ops idx).addr_low len
      → (0 < found) × (found + len < 2 ^ 32) × IsFree vm found (found + len)
  unfolding sub32
  gap_frees zero found lt large is =
      let filled = (layout.regions 0 lt).filled in
      let top = (layout.regions 0 lt).fits in
      (
        omega (arith, filled, top),
        omega (arith, filled, top),
        λ i below. ground (arith, layout.ascending 0 i, filled, top),
      )
  gap_frees (suc idx) found lt large is =
      let here = layout.regions (suc idx) lt in
      let filled = here.filled in
      let top = here.fits in
      (
        omega (arith, filled, top),
        omega (arith, filled, top),
        λ i below. ground (
          arith,
          layout.ascending (suc idx) i,
          layout.ascending i idx,
          (layout.regions i below).filled,
          (layout.regions idx (omega arith)).filled,
          filled,
          top,
        ),
      )

  gap_loop-Frees :
      (n : ℕ)
      → n ≤ vm.nr_pmr_ops
      → ((i : ℕ) → n ≤ i → i < vm.nr_pmr_ops → gap_below vm.pmr_ops i ≤ len)
      → FreesRegion vm len (gap_loop vm len n)
  unfolding gap_loop
  gap_loop-Frees zero le small = inl (refl, λ i lt. small i (omega arith) lt)
  gap_loop-Frees (suc n) le small = elim (Bool-cases (is_gap_larger vm len n)) [
    | inl large ↦
        rw (gap_loop, large)
          (inr (gap_frees n _ (omega arith) ((gap-is n (omega arith)).0 large) refl))
    | inr not_large ↦
        rw (gap_loop, not_large)
          (gap_loop-Frees n (omega arith) (λ i from lt. elim (Bool-cases (i == n)) [
            | inl same ↦
                let e : i ≡ n = ground arith in rw e (ground (arith, gap-is n (omega arith)))
            | inr other ↦ small i (ground arith) lt
          ]))
  ]

confirmed :
    (vm : VirtualMachine) (size found : ℕ)
    → FreesRegion vm (size + 4096) found
    → found ≡ 0 ⊎ (is_range_eligible vm found ((found + size) % 2 ^ 32) ≡ true)
confirmed vm size found (inl (e, small)) = inl e
confirmed vm size found (inr (above, top, free)) =
    let e : (found + size) % 2 ^ 32 ≡ found + size = omega arith in
    inr (
      rw e
        ((is_range_eligible-IsFree vm found (found + size)).1 (λ i lt. ground (arith, free i lt))))

-- With the regions in order and a size below 2^32 - 4096: the search returns, without a failed
-- assertion, 0 if no region has a gap below it of more than the size and 4096 bytes; else an address
-- from which on that many bytes are free, all of them below 2^32.
pub search_free_mmap_region-FreesRegion :
    (vm : VirtualMachine) (size : ℕ)
    → size + 4096 < 2 ^ 32
    → IsLayout vm.pmr_ops vm.nr_pmr_ops
    → Returns (search_free_mmap_region vm size) (FreesRegion vm (size + 4096))
unfolding search_free_mmap_region
search_free_mmap_region-FreesRegion vm size fits layout =
    let e : (size + 4096) % 2 ^ 32 ≡ size + 4096 = omega arith in
    let found =
      gap_loop-Frees vm (size + 4096) fits layout vm.nr_pmr_ops (omega arith)
        (λ i from lt. absurd (omega arith)) in
    rw e (elim (confirmed vm size _ found) [
      | inl nothing ↦ rw nothing (rw nothing at found)
      | inr free ↦ elim (Bool-cases (gap_loop vm (size + 4096) vm.nr_pmr_ops == 0)) [
        | inl same ↦
            let z : gap_loop vm (size + 4096) vm.nr_pmr_ops ≡ 0 = ground arith in
            rw z (rw z at found)
        | inr other ↦ rw (other, free) found
      ]
    ])
