-- ===== src/Regions/Unregister.antt =====
-- `unregister_pm_region` of sandbox/pm_region.c takes out one region.
use hyrule.Prelude.{ℕ, zero, suc, ◌+◌, ◌-◌, ◌<◌, ◌≡◌, refl, arith}
use hyrule.Prelude.{true, ◌&&◌, leb, ltb, if◌then◌else◌}
use hyrule.Prelude.Returns.{Returns}
use hyrule.Cache.Memory.{Array, store}
use hyrule.Regions.{PmRegionOperation, VirtualMachine, shift_down, unregister_pm_region}
use hyrule.Regions.Layout.{IsLayout}

shift_down-at :
    (n idx : ℕ) (ops : Array PmRegionOperation) (j : ℕ)
    → shift_down n idx ops j ≡ (if leb idx j && ltb j (idx + n) then ops (j + 1) else ops j)
unfolding shift_down store
shift_down-at zero idx ops j = ground arith
shift_down-at (suc n) idx ops j =
    let rest = shift_down-at n (idx + 1) (store ops idx (ops (idx + 1))) j in rw rest (ground arith)

-- Where the region at `i` stood before.
abbrev pub index_before : ℕ → ℕ → ℕ
index_before pmr i = if ltb i pmr then i else i + 1

-- The regions but for one, in the same order.
abbrev pub Unregisters : VirtualMachine → ℕ → VirtualMachine → Type 0
Unregisters vm pmr next =
    (next.nr_pmr_ops + 1 ≡ vm.nr_pmr_ops)
    × ((i : ℕ) → i < next.nr_pmr_ops → next.pmr_ops i ≡ vm.pmr_ops (index_before pmr i))
    × IsLayout next.pmr_ops next.nr_pmr_ops
    × (next.vma_heap ≡ vm.vma_heap)

module _ (vm : VirtualMachine) (pmr : ℕ) (layout : IsLayout vm.pmr_ops vm.nr_pmr_ops)
    (lt : pmr < vm.nr_pmr_ops) where
  abbrev left : Array PmRegionOperation
  left = shift_down (vm.nr_pmr_ops - 1 - pmr) pmr vm.pmr_ops

  left-at : (i : ℕ) → i < vm.nr_pmr_ops - 1 → left i ≡ vm.pmr_ops (index_before pmr i)
  left-at i below =
      let e = shift_down-at (vm.nr_pmr_ops - 1 - pmr) pmr vm.pmr_ops i in rw e (ground arith)

  left-IsLayout : IsLayout left (vm.nr_pmr_ops - 1)
  left-IsLayout = record {
    regions = λ i below. rw (left-at i below) (layout.regions (index_before pmr i) (ground arith));
    ascending = λ i j less below.
        rw (left-at i (omega arith), left-at j below)
          (layout.ascending (index_before pmr i) (index_before pmr j) (ground arith)
            (ground arith));
  }

  -- With the regions in order, the index of one of them: taking it out returns, without a failed
  -- assertion, with one region fewer, the others in order and each as it was, those behind it one
  -- place down; the pointer to the heap is as it was.
  pub unregister_pm_region-Unregisters : Returns (unregister_pm_region vm pmr) (Unregisters vm pmr)
  unfolding unregister_pm_region
  unregister_pm_region-Unregisters =
      let inside : ltb pmr vm.nr_pmr_ops ≡ true = ground arith in
      rw inside (omega arith, left-at, left-IsLayout, refl)
