-- ===== src/Regions/Mmap.antt =====
-- sandbox/app.c, vfs.c and syscall.c: the system calls that map, unmap and extend memory.
pub mod Maps
pub mod Unmaps
pub mod Breaks
use hyrule.Prelude.{
  ℕ, zero, suc, ◌+◌, ◌-◌, ◌%◌, ◌^◌, ◌≤◌, ◌<◌, ◌≡◌, bit_and, bit_or, Bool, true, false,
}
use hyrule.Prelude.{not, ◌&&◌, ◌||◌, Option, none, some, leb, ◌==◌, if◌then◌else◌}
use hyrule.Cache.Memory.{Array, store}
use hyrule.Regions.{
  PmRegionOperation, VirtualMachine, search_pm_region_callback, is_vma_eligible, is_range_eligible,
  search_free_mmap_region, register_pm_region_operation, unregister_pm_region, sub32,
}

-- Stand-ins for the addresses of the four functions of sandbox/app.c.
abbrev pub vma_generic_read : ℕ
vma_generic_read = 1

abbrev pub vma_generic_write : ℕ
vma_generic_write = 2

abbrev pub vma_generic_direct : ℕ
vma_generic_direct = 3

abbrev pub vma_generic_reclaim : ℕ
vma_generic_reclaim = 4

-- `-ENOMEM` and `-EINVAL` as results of `uint32_t`.
abbrev pub enomem : ℕ
enomem = 2 ^ 32 - 12

abbrev pub einval : ℕ
einval = 2 ^ 32 - 22

unfoldable pub page_roundup : ℕ → ℕ
page_roundup addr =
    if bit_and addr 4095 == 0 then addr else (bit_and addr 4294963200 + 4096) % 2 ^ 32

-- `host_base` is what `preallocate_physical_memory` returned.
unfoldable pub mapping : ℕ → ℕ → ℕ → ℕ → PmRegionOperation
mapping addr_low len flags host_base = record {
  addr_low = addr_low;
  addr_high = (addr_low + len) % 2 ^ 32;
  pmr_read = vma_generic_read;
  pmr_write = vma_generic_write;
  pmr_direct = vma_generic_direct;
  pmr_reclaim = vma_generic_reclaim;
  flags = flags;
  host_base = host_base;
  opaque = 0;
}

unfoldable pub mmap_setup : VirtualMachine → ℕ → ℕ → ℕ → ℕ → Option VirtualMachine
mmap_setup vm addr_low len flags host_base =
    register_pm_region_operation vm (mapping addr_low len flags host_base)

-- The proposal, rounded up, if the range from there on is eligible.
unfoldable pub is_proposal_eligible : VirtualMachine → ℕ → ℕ → Bool
is_proposal_eligible vm proposal_addr len =
    not (proposal_addr == 0)
    && is_range_eligible vm (page_roundup proposal_addr)
        ((page_roundup proposal_addr + len) % 2 ^ 32)

-- A system call's result with the state it leaves.
abbrev pub Result : Type 0
Result = VirtualMachine × ℕ

abbrev pub mapped_at : ℕ → Option VirtualMachine → Option Result
mapped_at addr none = none
mapped_at addr (some next) = some (next, addr)

abbrev pub map_found : VirtualMachine → ℕ → ℕ → ℕ → Option ℕ → Option Result
map_found vm len mprot host_base none = none
map_found vm len mprot host_base (some addr_found) =
    if addr_found == 0
    then some (vm, enomem)
    else mapped_at (page_roundup addr_found)
        (mmap_setup vm (page_roundup addr_found) len mprot host_base)

unfoldable pub allocate_mmap_region : VirtualMachine → ℕ → ℕ → ℕ → ℕ → Option Result
allocate_mmap_region vm proposal_addr len mprot host_base =
    if is_proposal_eligible vm proposal_addr len
    then mapped_at (page_roundup proposal_addr)
        (mmap_setup vm (page_roundup proposal_addr) len mprot host_base)
    else map_found vm len mprot host_base (search_free_mmap_region vm len)

-- The protection is read from `flags`, as in the source: 1, 2 and 4 are PROT_READ, PROT_WRITE and
-- PROT_EXEC, and 4, 2 and 1 the program's.
unfoldable pub protection : ℕ → ℕ
protection flags =
    bit_or (bit_or (if bit_and flags 1 == 0 then 0 else 4) (if bit_and flags 2 == 0 then 0 else 2))
      (if bit_and flags 4 == 0 then 0 else 1)

-- 32 is MAP_ANONYMOUS.
unfoldable pub do_mmap : VirtualMachine → ℕ → ℕ → ℕ → ℕ → ℕ → Option Result
do_mmap vm proposal_addr len prot flags host_base =
    if len == 0
    then some (vm, einval)
    else (if bit_and flags 32 == 0
        then none
        else allocate_mmap_region vm proposal_addr len (protection flags) host_base)

-- The region's memory goes back to the host before the region is taken out.
abbrev pub unmap_found : VirtualMachine → ℕ → Option (Option ℕ) → Option Result
unmap_found vm len none = none
unmap_found vm len (some none) = some (vm, einval)
unmap_found vm len (some (some pmr)) =
    if sub32 (vm.pmr_ops pmr).addr_high (vm.pmr_ops pmr).addr_low == len
    then mapped_at 0 (unregister_pm_region vm pmr)
    else some (vm, einval)

unfoldable pub do_munmap : VirtualMachine → ℕ → ℕ → Option Result
do_munmap vm addr len = unmap_found vm len (search_pm_region_callback vm addr)

-- `vm->vma_heap->addr_high = addr`, and the same of `host_base`.
unfoldable pub with_heap_end : VirtualMachine → ℕ → VirtualMachine
with_heap_end vm addr = record vm {
  pmr_ops = store vm.pmr_ops vm.vma_heap (record (vm.pmr_ops vm.vma_heap) { addr_high = addr });
}

unfoldable pub with_heap_base : VirtualMachine → ℕ → VirtualMachine
with_heap_base vm base = record vm {
  pmr_ops = store vm.pmr_ops vm.vma_heap (record (vm.pmr_ops vm.vma_heap) { host_base = base });
}

-- `base` is what `realloc` returns. Where that is the null pointer the new end stays.
unfoldable pub call_brk : VirtualMachine → ℕ → ℕ → Result
call_brk vm addr base =
    let heap = vm.pmr_ops vm.vma_heap in
    if addr == 0 || leb addr heap.addr_high
    then (vm, heap.addr_high)
    else (if is_vma_eligible (with_heap_end vm addr) vm.vma_heap
        then (with_heap_base (with_heap_end vm addr) base, if base == 0 then enomem else addr)
        else (with_heap_end (with_heap_end vm addr) heap.addr_high, enomem))
