-- ===== src/Regions/Layout.antt =====
-- The invariant of the regions, and what the search of sandbox/pm_region.c finds under it.
pub mod Finds
use hyrule.Prelude.{ℕ, ◌+◌, ◌%◌, ◌^◌, ◌≤◌, ◌<◌, ◌≡◌, refl, arith, Option, some, leb, if◌then◌else◌}
use hyrule.Prelude.Int.{ℤ, pos, negsuc}
use hyrule.Cache.Memory.{Array}
use hyrule.Regions.{PmRegionOperation, VirtualMachine, pm_region_operation_compare, target_of}

-- A region holds at least one address.
pub record IsRegion (r : PmRegionOperation) : Type 0 where
  pub filled : r.addr_low < r.addr_high
  pub fits : r.addr_high < 2 ^ 32

abbrev pub Holds : PmRegionOperation → ℕ → Type 0
Holds r guest_pa = (r.addr_low ≤ guest_pa) × (guest_pa < r.addr_high)

-- The regions stand in ascending order, and no two share an address.
pub record IsLayout (ops : Array PmRegionOperation) (num : ℕ) : Type 0 where
  pub regions : (i : ℕ) → i < num → IsRegion (ops i)
  pub ascending : (i j : ℕ) → i < j → j < num → (ops i).addr_high ≤ (ops j).addr_low

-- What comparing an address with a region comes to.
abbrev pub side : ℕ → PmRegionOperation → ℤ
side p r = if leb (p + 1) r.addr_low then negsuc 0 else (if leb r.addr_high p then pos 1 else pos 0)

pub compare-side :
    (p : ℕ) (r : PmRegionOperation)
    → p + 1 < 2 ^ 32
    → IsRegion r
    → pm_region_operation_compare (target_of p) r ≡ some (side p r)
unfolding pm_region_operation_compare target_of
compare-side p r small is = ground (arith, is.filled, is.fits)
