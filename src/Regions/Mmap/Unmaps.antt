-- ===== src/Regions/Mmap/Unmaps.antt =====
-- `do_munmap` of sandbox/vfs.c.
use hyrule.Prelude.{ℕ, ◌+◌, ◌^◌, ◌<◌, ◌≡◌, refl, ◌⊎◌, inl, inr, arith, true}
use hyrule.Prelude.{Bool-cases, Option, none, some, ◌==◌}
use hyrule.Prelude.Returns.{Returns}
use hyrule.Regions.{VirtualMachine, sub32, unregister_pm_region, search_pm_region_callback}
use hyrule.Regions.Layout.{Holds, IsLayout}
use hyrule.Regions.Layout.Finds.{FindsRegion, search_pm_region_callback-FindsRegion}
use hyrule.Regions.Unregister.{Unregisters, unregister_pm_region-Unregisters}
use hyrule.Regions.Mmap.{Result, mapped_at, unmap_found, do_munmap, einval}

module _ (vm : VirtualMachine) (addr len : ℕ) where
  -- The region that holds the address, and is as long as the length says.
  abbrev pub IsMapping : ℕ → Type 0
  IsMapping pmr =
      (pmr < vm.nr_pmr_ops)
      × Holds (vm.pmr_ops pmr) addr
      × ((vm.pmr_ops pmr).addr_low + len ≡ (vm.pmr_ops pmr).addr_high)

  abbrev pub Unmaps : Result → Type 0
  Unmaps (next, ret) =
      ((ret ≡ 0) × ((pmr : ℕ) × (IsMapping pmr × Unregisters vm pmr next)))
      ⊎ ((ret ≡ einval) × (next ≡ vm) × ((pmr : ℕ) → ¬ IsMapping pmr))

  module _ (layout : IsLayout vm.pmr_ops vm.nr_pmr_ops) where
    -- An address lies in one region at most.
    same_region :
        (i j : ℕ)
        → i < vm.nr_pmr_ops
        → j < vm.nr_pmr_ops
        → Holds (vm.pmr_ops i) addr
        → Holds (vm.pmr_ops j) addr
        → i ≡ j
    same_region i j low high holds_i holds_j =
        ground (arith, layout.ascending i j, layout.ascending j i)

    taken_out :
        (pmr : ℕ) (o : Option VirtualMachine)
        → IsMapping pmr
        → Returns o (Unregisters vm pmr)
        → Returns (mapped_at 0 o) Unmaps
    taken_out pmr none is bad = bad
    taken_out pmr (some next) is gone = inl (refl, (pmr, (is, gone)))

    length-IsMapping :
        (pmr : ℕ)
        → pmr < vm.nr_pmr_ops
        → (sub32 (vm.pmr_ops pmr).addr_high (vm.pmr_ops pmr).addr_low == len) ≡ true
        → (vm.pmr_ops pmr).addr_low + len ≡ (vm.pmr_ops pmr).addr_high
    unfolding sub32
    length-IsMapping pmr lt same =
        let is = layout.regions pmr lt in ground (arith, is.filled, is.fits)

    IsMapping-length :
        (pmr : ℕ)
        → IsMapping pmr
        → (sub32 (vm.pmr_ops pmr).addr_high (vm.pmr_ops pmr).addr_low == len) ≡ true
    unfolding sub32
    IsMapping-length pmr (lt, holds, same) =
        let is = layout.regions pmr lt in ground (arith, is.filled, is.fits)

    unmap_found-Unmaps :
        (o : Option (Option ℕ))
        → Returns o (FindsRegion vm.pmr_ops vm.nr_pmr_ops addr)
        → Returns (unmap_found vm len o) Unmaps
    unmap_found-Unmaps none bad = bad
    unmap_found-Unmaps (some none) missing =
        inr (refl, refl, λ pmr (lt, holds, same). missing pmr lt holds)
    unmap_found-Unmaps (some (some pmr)) (lt, holds) =
        elim (Bool-cases (sub32 (vm.pmr_ops pmr).addr_high (vm.pmr_ops pmr).addr_low == len)) [
          | inl same ↦ rw same (
              taken_out pmr (unregister_pm_region vm pmr) (lt, holds, length-IsMapping pmr lt same)
                (unregister_pm_region-Unregisters vm pmr layout lt))
          | inr other ↦ rw other (
              inr (
                refl,
                refl,
                λ i (below, held, same).
                    let e : i ≡ pmr = same_region i pmr below lt held holds in
                    let this : IsMapping i = (below, held, same) in
                    let is = rw e at this in ground (arith, IsMapping-length pmr is, other),
              ))
        ]

    -- With the regions in order, an address below 2^32 - 1, any length: the call returns, without a
    -- failed assertion, 0, and then a region that holds the address and is as long as the length
    -- says is taken out, the others in order; or the error EINVAL, with nothing changed, and then no
    -- region is such a one.
    pub do_munmap-Unmaps : addr + 1 < 2 ^ 32 → Returns (do_munmap vm addr len) Unmaps
    unfolding do_munmap
    do_munmap-Unmaps small =
        unmap_found-Unmaps (search_pm_region_callback vm addr)
          (search_pm_region_callback-FindsRegion vm addr small layout)
