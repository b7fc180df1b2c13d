-- ===== src/Regions/Tests.antt =====
-- The theorems on the regions of memory at a program's regions, and runs of the system calls.
use hyrule.Prelude.{ℕ, zero, suc, ◌+◌, ◌≤◌, ◌<◌, ◌≡◌, refl, inl, inr, arith}
use hyrule.Prelude.{none}
use hyrule.Prelude.Returns.{Returns}
use hyrule.Cache.Memory.{Array, store}
use hyrule.Regions.{
  PmRegionOperation, VirtualMachine, pm_region_operation_compare, search_pm_region_callback,
  is_range_eligible, search_free_mmap_region, target_of, range_loop, register_pm_region_operation,
  unregister_pm_region,
}
use hyrule.Regions.Bubble.{sort, bubble_out, bubble_up, swap_next}
use hyrule.Regions.Lookup.{lookup, lookup_round}
use hyrule.Cache.Window.{window_loop}
use hyrule.Regions.Layout.{IsRegion, IsLayout}
use hyrule.Regions.Layout.Finds.{FindsRegion, search_pm_region_callback-FindsRegion}
use hyrule.Regions.Free.{IsFree, FreesRegion, search_free_mmap_region-FreesRegion}
use hyrule.Regions.Register.{Registers, register_pm_region_operation-Registers}
use hyrule.Regions.Unregister.{Unregisters, unregister_pm_region-Unregisters}
use hyrule.Regions.Mmap.{
  page_roundup, is_proposal_eligible, mmap_setup, mapping, allocate_mmap_region, do_mmap, do_munmap,
  call_brk, protection,
}
use hyrule.Regions.Mmap.Maps.{Maps, allocate_mmap_region-Maps}
use hyrule.Regions.Mmap.Unmaps.{Unmaps, do_munmap-Unmaps}
use hyrule.Regions.Mmap.Breaks.{KeepsRegions, Ends, call_brk-Ends}

abbrev region : ℕ → ℕ → PmRegionOperation
region low high = record {
  addr_low = low;
  addr_high = high;
  pmr_read = 1;
  pmr_write = 2;
  pmr_direct = 3;
  pmr_reclaim = 4;
  flags = 6;
  host_base = 4096;
  opaque = 0;
}

abbrev regions : Array PmRegionOperation
regions zero = region 65536 70000
regions (suc zero) = region 139263 139264
regions (suc (suc i)) = region 3749707776 3758096384

-- A program's text, its heap and its stack.
abbrev program : VirtualMachine
program = record { nr_pmr_ops = 3; pmr_ops = regions; vma_heap = 1 }

program-IsLayout : IsLayout regions 3
program-IsLayout = record {
  regions = λ i lt. is i;
  ascending = λ i j less lt. in_order i j less lt;
}
  where
    is : (i : ℕ) → IsRegion (regions i)
    is zero = record { filled = omega arith; fits = omega arith }
    is (suc zero) = record { filled = omega arith; fits = omega arith }
    is (suc (suc i)) = record { filled = omega arith; fits = omega arith }

    in_order : (i j : ℕ) → i < j → j < 3 → (regions i).addr_high ≤ (regions j).addr_low
    in_order i zero less lt = absurd (omega arith)
    in_order zero (suc zero) less lt = omega arith
    in_order (suc i) (suc zero) less lt = absurd (omega arith)
    in_order zero (suc (suc j)) less lt = omega arith
    in_order (suc zero) (suc (suc j)) less lt = omega arith
    in_order (suc (suc i)) (suc (suc j)) less lt = absurd (omega arith)

new_region-IsFree : IsFree program 200000 204096
new_region-IsFree zero lt = inl (omega arith)
new_region-IsFree (suc zero) lt = inl (omega arith)
new_region-IsFree (suc (suc i)) lt = inr (omega arith)

search_pm_region_callback-FindsRegion_example :
    Returns (search_pm_region_callback program 69999) (FindsRegion regions 3 69999)
search_pm_region_callback-FindsRegion_example =
    search_pm_region_callback-FindsRegion program 69999 (omega arith) program-IsLayout

search_free_mmap_region-FreesRegion_example :
    Returns (search_free_mmap_region program 8192) (FreesRegion program (8192 + 4096))
search_free_mmap_region-FreesRegion_example =
    search_free_mmap_region-FreesRegion program 8192 (omega arith) program-IsLayout

register_pm_region_operation-Registers_example :
    Returns
      (register_pm_region_operation program (region 200000 204096))
      (Registers program (region 200000 204096))
register_pm_region_operation-Registers_example =
    register_pm_region_operation-Registers program (region 200000 204096) program-IsLayout
      (record { filled = omega arith; fits = omega arith }) new_region-IsFree (omega arith)
      (omega arith) (omega arith)

unregister_pm_region-Unregisters_example :
    Returns (unregister_pm_region program 1) (Unregisters program 1)
unregister_pm_region-Unregisters_example =
    unregister_pm_region-Unregisters program 1 program-IsLayout (omega arith)

allocate_mmap_region-Maps_example :
    Returns (allocate_mmap_region program 0 8192 6 12288) (Maps program 8192 6 12288)
allocate_mmap_region-Maps_example =
    allocate_mmap_region-Maps program 8192 6 12288 program-IsLayout (omega arith) (omega arith) 0
      (omega arith) (omega arith)

do_munmap-Unmaps_example : Returns (do_munmap program 65536 4464) (Unmaps program 65536 4464)
do_munmap-Unmaps_example = do_munmap-Unmaps program 65536 4464 program-IsLayout (omega arith)

call_brk-Ends_example :
    KeepsRegions program (call_brk program 200000 16384).0
    × Ends program 200000 16384 (call_brk program 200000 16384)
call_brk-Ends_example =
    call_brk-Ends program 200000 16384 program-IsLayout (omega arith) (omega arith)

-- A mapping that is asked for with PROT_READ and MAP_ANONYMOUS | MAP_PRIVATE, which is 34.
protection_of_flags : protection 34 ≡ 2
unfolding protection
protection_of_flags = refl

-- The highest address fails an assertion of the comparison.
highest_address : search_pm_region_callback program 4294967295 ≡ none
unfolding search_pm_region_callback lookup lookup_round window_loop target_of
    pm_region_operation_compare
highest_address = refl

-- A proposed address from which on the length leaves the address space ends the emulator.
overlong_mapping : do_mmap program 4096 4294963200 3 34 4096 ≡ none
unfolding do_mmap allocate_mmap_region is_proposal_eligible is_range_eligible range_loop
    page_roundup mmap_setup register_pm_region_operation search_pm_region_callback lookup
    lookup_round window_loop target_of pm_region_operation_compare mapping protection sort
    bubble_out bubble_up swap_next store
overlong_mapping = refl
