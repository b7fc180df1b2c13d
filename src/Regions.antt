-- ===== src/Regions.antt =====
-- sandbox/pm_region.h and pm_region.c: the regions of a program's memory. A callback and a pointer
-- are numbers, 0 the null pointer; the field `pmr_desc` is left out.
pub mod Lookup
pub mod Bubble
pub mod Layout
pub mod Free
pub mod Eligible
pub mod Register
pub mod Unregister
pub mod Mmap
mod Tests
use hyrule.Prelude.{ℕ, zero, suc, ◌+◌, ◌-◌, ◌%◌, ◌^◌, ◌≡◌, refl, Bool, true, false, not}
use hyrule.Prelude.{◌&&◌, ◌||◌, Option, none, some, ltb, leb, ◌==◌, if◌then◌else◌}
use hyrule.Prelude.Int.{ℤ, pos, negsuc}
use hyrule.Cache.Memory.{Array, store}
use hyrule.Regions.Lookup.{lookup}
use hyrule.Regions.Bubble.{sort}

pub record PmRegionOperation : Type 0 where
  pub addr_low : ℕ
  pub addr_high : ℕ
  pub pmr_read : ℕ
  pub pmr_write : ℕ
  pub pmr_direct : ℕ
  pub pmr_reclaim : ℕ
  pub flags : ℕ
  pub host_base : ℕ
  pub opaque : ℕ

-- The fields of `struct virtual_machine` that hold the regions. `vma_heap` is an index, the
-- pointer's distance from `pmr_ops`.
pub record VirtualMachine : Type 0 where
  pub nr_pmr_ops : ℕ
  pub pmr_ops : Array PmRegionOperation
  pub vma_heap : ℕ

-- `none` is an assertion that fails, as in all that follows.
unfoldable pub pm_region_operation_compare : PmRegionOperation → PmRegionOperation → Option ℤ
pm_region_operation_compare pmr1 pmr2 =
    if leb pmr1.addr_low pmr1.addr_high && leb pmr2.addr_low pmr2.addr_high
    then (if leb pmr1.addr_high pmr2.addr_low
        then some (negsuc 0)
        else (if leb pmr2.addr_high pmr1.addr_low
            then some (pos 1)
            else (if leb pmr1.addr_low pmr2.addr_low && leb pmr2.addr_high pmr1.addr_high
                  || leb pmr2.addr_low pmr1.addr_low && leb pmr1.addr_high pmr2.addr_high
                then some (pos 0)
                else none)))
    else none

-- The fields of a target that are not named are zero; the bounds are cut to 32 bits.
unfoldable pub target_of : ℕ → PmRegionOperation
target_of guest_pa = record {
  addr_low = guest_pa % 2 ^ 32;
  addr_high = (guest_pa + 1) % 2 ^ 32;
  pmr_read = 0;
  pmr_write = 0;
  pmr_direct = 0;
  pmr_reclaim = 0;
  flags = 0;
  host_base = 0;
  opaque = 0;
}

-- The index of the region, or `some none` for the null pointer.
unfoldable pub search_pm_region_callback : VirtualMachine → ℕ → Option (Option ℕ)
search_pm_region_callback vm guest_pa =
    lookup pm_region_operation_compare vm.pmr_ops (target_of guest_pa) vm.nr_pmr_ops

-- The loop leaves early, with `idx` below the count, at a region that begins inside the vma. The
-- vma is found if its index is below that.
unfoldable pub begins_inside : VirtualMachine → ℕ → ℕ → Bool
begins_inside vm vma idx =
    ltb (vm.pmr_ops vma).addr_low (vm.pmr_ops idx).addr_low
    && ltb (vm.pmr_ops idx).addr_low (vm.pmr_ops vma).addr_high

unfoldable pub vma_loop : VirtualMachine → ℕ → ℕ → ℕ → Bool → Bool
vma_loop vm vma zero idx vma_found = vma_found
vma_loop vm vma (suc n) idx vma_found = elim (idx == vma) [
  | true ↦ vma_loop vm vma n (idx + 1) true
  | false ↦ elim (begins_inside vm vma idx) [
    | true ↦ false
    | false ↦ vma_loop vm vma n (idx + 1) vma_found
  ]
]

unfoldable pub is_vma_eligible : VirtualMachine → ℕ → Bool
is_vma_eligible vm vma = vma_loop vm vma vm.nr_pmr_ops 0 false

unfoldable pub range_loop : VirtualMachine → ℕ → ℕ → ℕ → ℕ → Bool
range_loop vm addr_low addr_high zero idx = true
range_loop vm addr_low addr_high (suc n) idx =
    let rest = range_loop vm addr_low addr_high n (idx + 1) in
    if leb (vm.pmr_ops idx).addr_high addr_low
    then rest
    else (if leb addr_high (vm.pmr_ops idx).addr_low then rest else false)

unfoldable pub is_range_eligible : VirtualMachine → ℕ → ℕ → Bool
is_range_eligible vm addr_low addr_high = range_loop vm addr_low addr_high vm.nr_pmr_ops 0

-- Subtraction of `uint32_t`.
unfoldable pub sub32 : ℕ → ℕ → ℕ
sub32 x y = (x + 2 ^ 32 - y) % 2 ^ 32

-- Is the gap below this region longer than `len`?
unfoldable pub is_gap_larger : VirtualMachine → ℕ → ℕ → Bool
is_gap_larger vm len zero = ltb len (vm.pmr_ops 0).addr_low
is_gap_larger vm len (suc idx) =
    ltb len (sub32 (vm.pmr_ops (suc idx)).addr_low (vm.pmr_ops idx).addr_high)

-- `idx` counts down from the number of regions left.
unfoldable pub gap_loop : VirtualMachine → ℕ → ℕ → ℕ
gap_loop vm len zero = 0
gap_loop vm len (suc idx) = elim (is_gap_larger vm len idx) [
  | true ↦ sub32 (vm.pmr_ops idx).addr_low len
  | false ↦ gap_loop vm len idx
]

unfoldable pub search_free_mmap_region : VirtualMachine → ℕ → Option ℕ
search_free_mmap_region vm size =
    let addr_found = gap_loop vm ((size + 4096) % 2 ^ 32) vm.nr_pmr_ops in
    if addr_found == 0
    then some 0
    else (if is_range_eligible vm addr_found ((addr_found + size) % 2 ^ 32)
        then some addr_found
        else none)

abbrev pub max_nr_pm_regions : ℕ
max_nr_pm_regions = 256

-- The elements that the array `pmr_ops` has.
abbrev pub max_vma_nr : ℕ
max_vma_nr = 128

-- The last assertion of `register_pm_region_operation`, of the region that was just put in.
abbrev pub confirm : VirtualMachine → Option (Option ℕ) → Option VirtualMachine
confirm vm none = none
confirm vm (some none) = none
confirm vm (some (some idx)) = if is_vma_eligible vm idx then some vm else none

abbrev pub sorted_in :
    VirtualMachine → PmRegionOperation → Option (Array PmRegionOperation) → Option VirtualMachine
sorted_in vm pmr none = none
sorted_in vm pmr (some ops) =
    let next : VirtualMachine = record vm { nr_pmr_ops = vm.nr_pmr_ops + 1; pmr_ops = ops } in
    confirm next (search_pm_region_callback next pmr.addr_low)

-- Below 256 but behind the array's end the C would write over `vma_heap`: that is outside the model,
-- and `none` too.
abbrev pub put_in : VirtualMachine → PmRegionOperation → Option (Option ℕ) → Option VirtualMachine
put_in vm pmr none = none
put_in vm pmr (some (some idx)) = none
put_in vm pmr (some none) =
    if ltb vm.nr_pmr_ops max_nr_pm_regions && ltb vm.nr_pmr_ops max_vma_nr
    then sorted_in vm pmr
        (sort pm_region_operation_compare (store vm.pmr_ops vm.nr_pmr_ops pmr) (vm.nr_pmr_ops + 1))
    else none

-- A null pointer for `_pmr` at the end would be read through: also `none`.
unfoldable pub register_pm_region_operation :
    VirtualMachine → PmRegionOperation → Option VirtualMachine
register_pm_region_operation vm pmr =
    if not (pmr.pmr_read == 0) && not (pmr.pmr_write == 0)
    then put_in vm pmr (search_pm_region_callback vm pmr.addr_low)
    else none

-- `for (; idx < nr_pmr_ops - 1; idx++) pmr_ops[idx] = pmr_ops[idx + 1]`, by the rounds left.
unfoldable pub shift_down : ℕ → ℕ → Array PmRegionOperation → Array PmRegionOperation
shift_down zero idx ops = ops
shift_down (suc n) idx ops = shift_down n (idx + 1) (store ops idx (ops (idx + 1)))

-- `pmr` is the region's index.
unfoldable pub unregister_pm_region : VirtualMachine → ℕ → Option VirtualMachine
unregister_pm_region vm pmr =
    if ltb pmr vm.nr_pmr_ops
    then some (record vm {
      nr_pmr_ops = vm.nr_pmr_ops - 1;
      pmr_ops = shift_down (vm.nr_pmr_ops - 1 - pmr) pmr vm.pmr_ops;
    })
    else none
