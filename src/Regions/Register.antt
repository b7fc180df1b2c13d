-- ===== src/Regions/Register.antt =====
-- `register_pm_region_operation` of sandbox/pm_region.c keeps the regions in order.
use hyrule.Prelude.{ℕ, ◌+◌, ◌<◌, ◌≡◌, refl, ◌≢◌, inl, inr, arith, Option, none, some}
use hyrule.Prelude.{true, false, Bool-cases, ◌==◌, ltb}
use hyrule.Prelude.Returns.{Returns}
use hyrule.Cache.Memory.{Array, store}
use hyrule.Cache.Order.{IsSorted}
use hyrule.Regions.{
  PmRegionOperation, VirtualMachine, pm_region_operation_compare, search_pm_region_callback,
  register_pm_region_operation, sorted_in, confirm, put_in,
}
use hyrule.Regions.Bubble.{sort}
use hyrule.Regions.Bubble.Rearranges.{
  Rearranges, Rearranges-each, Rearranges-pairs, Rearranges-some,
}
use hyrule.Regions.Bubble.Sorts.{Orders, Sorts, sort-Sorts}
use hyrule.Regions.Layout.{IsRegion, IsLayout}
use hyrule.Regions.Layout.Finds.{FindsRegion, search_pm_region_callback-FindsRegion}
use hyrule.Regions.Free.{IsApart, IsFree}
use hyrule.Regions.Eligible.{is_vma_eligible-IsEligible, IsLayout-IsEligible}

abbrev ArePlaced : PmRegionOperation → PmRegionOperation → Type 0
ArePlaced x y = IsRegion x × IsRegion y × IsApart x y.addr_low y.addr_high

ArePlaced-Orders :
    (x y : PmRegionOperation)
    → ArePlaced x y
    → Orders (pm_region_operation_compare x y) x.addr_low y.addr_low
unfolding pm_region_operation_compare
ArePlaced-Orders x y (is_x, is_y, apart) = ground (arith, is_x.filled, is_y.filled)

-- Regions that are apart and sorted by their first address are in order.
Sorted-IsLayout :
    (ops : Array PmRegionOperation) (num : ℕ)
    → ((i : ℕ) → i < num → IsRegion (ops i))
    → ((i j : ℕ) → i ≢ j → i < num → j < num → ArePlaced (ops i) (ops j))
    → IsSorted (λ r. r.addr_low) ops num
    → IsLayout ops num
Sorted-IsLayout ops num regions placed sorted = record {
  regions = regions;
  ascending = λ i j lt below.
      let (is_i, is_j, apart) = placed i j (λ e. omega arith) (omega arith) below in
      ground (arith, apart, is_j.filled, sorted i j (omega arith) below);
}

-- One region more: those that were there and the new one, in order.
abbrev pub Registers : VirtualMachine → PmRegionOperation → VirtualMachine → Type 0
Registers vm pmr next =
    (next.nr_pmr_ops ≡ vm.nr_pmr_ops + 1)
    × Rearranges (vm.nr_pmr_ops + 1) (store vm.pmr_ops vm.nr_pmr_ops pmr) next.pmr_ops
    × IsLayout next.pmr_ops next.nr_pmr_ops
    × (next.vma_heap ≡ vm.vma_heap)

module _ (vm : VirtualMachine) (pmr : PmRegionOperation)
    (layout : IsLayout vm.pmr_ops vm.nr_pmr_ops) (is : IsRegion pmr)
    (free : IsFree vm pmr.addr_low pmr.addr_high) where
  abbrev appended : Array PmRegionOperation
  appended = store vm.pmr_ops vm.nr_pmr_ops pmr

  appended-regions : (i : ℕ) → i < vm.nr_pmr_ops + 1 → IsRegion (appended i)
  unfolding store
  appended-regions i lt = elim (Bool-cases (i == vm.nr_pmr_ops)) [
    | inl last ↦ rw (store, last) is
    | inr before ↦ rw (store, before) (layout.regions i (ground arith))
  ]

  appended-IsApart :
      (i j : ℕ)
      → i ≢ j
      → i < vm.nr_pmr_ops + 1
      → j < vm.nr_pmr_ops + 1
      → IsApart (appended i) (appended j).addr_low (appended j).addr_high
  unfolding store
  appended-IsApart i j differ low high =
      ground (arith, free i, free j, layout.ascending i j, layout.ascending j i)

  appended-IsLayout :
      (ops : Array PmRegionOperation)
      → Rearranges (vm.nr_pmr_ops + 1) appended ops
      → IsSorted (λ r. r.addr_low) ops (vm.nr_pmr_ops + 1)
      → IsLayout ops (vm.nr_pmr_ops + 1)
  appended-IsLayout ops moves sorted =
      Sorted-IsLayout ops (vm.nr_pmr_ops + 1) (Rearranges-each IsRegion moves appended-regions)
        (Rearranges-pairs ArePlaced moves (λ i j differ low high.
          (appended-regions i low, appended-regions j high, appended-IsApart i j differ low high)))
        sorted

  sort-appended :
      Returns
        (sort pm_region_operation_compare appended (vm.nr_pmr_ops + 1))
        (Sorts pm_region_operation_compare (λ r. r.addr_low) appended (vm.nr_pmr_ops + 1))
  sort-appended =
      sort-Sorts pm_region_operation_compare (λ r. r.addr_low) appended (vm.nr_pmr_ops + 1)
        (λ i j differ low high.
          ArePlaced-Orders (appended i) (appended j)
            (appended-regions i low, appended-regions j high, appended-IsApart i j differ low high))

  last_is : appended vm.nr_pmr_ops ≡ pmr
  unfolding store
  last_is = ground arith

  -- The new region is found again, and is eligible.
  found_again :
      (next : VirtualMachine) (o : Option (Option ℕ))
      → Registers vm pmr next
      → Returns o (FindsRegion next.pmr_ops next.nr_pmr_ops pmr.addr_low)
      → Returns (confirm next o) (Registers vm pmr)
  found_again next none done bad = bad
  found_again next (some none) (e, moves, ordered, heap) missing =
      let (i, lt, same) =
        Rearranges-some (λ r. r ≡ pmr) moves (vm.nr_pmr_ops, omega arith, last_is) in
      let filled = is.filled in
      absurd (missing i (omega arith) (rw same (omega arith, omega arith)))
  found_again next (some (some idx)) (e, moves, ordered, heap) (lt, holds) =
      rw ((is_vma_eligible-IsEligible next idx).1 (IsLayout-IsEligible next idx ordered lt))
        (e, moves, ordered, heap)

  pub sorted_in-Registers :
      (o : Option (Array PmRegionOperation))
      → Returns o (Sorts pm_region_operation_compare (λ r. r.addr_low) appended (vm.nr_pmr_ops + 1))
      → Returns (sorted_in vm pmr o) (Registers vm pmr)
  sorted_in-Registers none bad = bad
  sorted_in-Registers (some ops) (moves, sorted) =
      let next : VirtualMachine = record vm { nr_pmr_ops = vm.nr_pmr_ops + 1; pmr_ops = ops } in
      let ordered = appended-IsLayout ops moves sorted in
      found_again next (search_pm_region_callback next pmr.addr_low) (refl, moves, ordered, refl)
        (search_pm_region_callback-FindsRegion next pmr.addr_low (omega (arith, is.filled, is.fits))
          ordered)

  put_in-Registers :
      (o : Option (Option ℕ))
      → vm.nr_pmr_ops < 128
      → Returns o (FindsRegion vm.pmr_ops vm.nr_pmr_ops pmr.addr_low)
      → Returns (put_in vm pmr o) (Registers vm pmr)
  put_in-Registers none room bad = bad
  put_in-Registers (some (some idx)) room (lt, holds) =
      absurd (ground (arith, free idx lt, is.filled))
  put_in-Registers (some none) room missing =
      let yes_room : ltb vm.nr_pmr_ops 256 ≡ true = ground arith in
      let in_array : ltb vm.nr_pmr_ops 128 ≡ true = ground arith in
      rw (yes_room, in_array)
        (sorted_in-Registers (sort pm_region_operation_compare appended (vm.nr_pmr_ops + 1))
          sort-appended)

  -- With the regions in order and fewer than 128 of them, and a new region that is not empty, ends
  -- below 2^32, shares no address with any of them and has its two callbacks: the registration
  -- returns, without a failed assertion, with one region more. The regions are those that were there
  -- and the new one, rearranged, and are in order; the pointer to the heap is as it was.
  pub register_pm_region_operation-Registers :
      vm.nr_pmr_ops < 128
      → 0 < pmr.pmr_read
      → 0 < pmr.pmr_write
      → Returns (register_pm_region_operation vm pmr) (Registers vm pmr)
  unfolding register_pm_region_operation
  register_pm_region_operation-Registers room reads writes =
      let read : (pmr.pmr_read == 0) ≡ false = ground arith in
      let write : (pmr.pmr_write == 0) ≡ false = ground arith in
      rw (read, write)
        (put_in-Registers (search_pm_region_callback vm pmr.addr_low) room (
          search_pm_region_callback-FindsRegion vm pmr.addr_low (omega (arith, is.filled, is.fits))
            layout))
