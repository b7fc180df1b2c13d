-- ===== src/Regions/Mmap/Breaks.antt =====
-- `call_brk` of sandbox/syscall.c: the end of the heap.
use hyrule.Prelude.{ℕ, ◌^◌, ◌≤◌, ◌<◌, ◌≡◌, refl, ◌≢◌, ◌⊎◌, inl, inr, arith, true, false}
use hyrule.Prelude.{Bool-cases, ◌||◌, leb, ◌==◌, if◌then◌else◌}
use hyrule.Cache.Memory.{store}
use hyrule.Regions.{PmRegionOperation, VirtualMachine, is_vma_eligible}
use hyrule.Regions.Layout.{IsRegion, IsLayout}
use hyrule.Regions.Eligible.{is_vma_eligible-IsEligible}
use hyrule.Regions.Mmap.{Result, with_heap_end, with_heap_base, call_brk, enomem}

-- The heap's region.
abbrev pub heap_of : VirtualMachine → PmRegionOperation
heap_of vm = vm.pmr_ops vm.vma_heap

-- The regions are in order, those but for the heap as they were, and the heap begins where it began.
abbrev pub KeepsRegions : VirtualMachine → VirtualMachine → Type 0
KeepsRegions vm next =
    IsLayout next.pmr_ops next.nr_pmr_ops
    × (next.nr_pmr_ops ≡ vm.nr_pmr_ops)
    × (next.vma_heap ≡ vm.vma_heap)
    × ((i : ℕ) → i ≢ vm.vma_heap → next.pmr_ops i ≡ vm.pmr_ops i)
    × ((heap_of next).addr_low ≡ (heap_of vm).addr_low)

-- No region begins in the heap or behind it, below the address.
abbrev pub IsClear : VirtualMachine → ℕ → Type 0
IsClear vm addr = (i : ℕ) → vm.vma_heap < i → i < vm.nr_pmr_ops → addr ≤ (vm.pmr_ops i).addr_low

-- The heap's end after the call and what is returned.
abbrev pub Ends : VirtualMachine → ℕ → ℕ → Result → Type 0
Ends vm addr base (next, ret) =
    ((addr ≤ (heap_of vm).addr_high) × (ret ≡ (heap_of vm).addr_high) × (next ≡ vm))
    ⊎ ((((heap_of vm).addr_high < addr)
          × IsClear vm addr
          × (0 < base)
          × (ret ≡ addr)
          × ((heap_of next).addr_high ≡ addr)
          × ((heap_of next).host_base ≡ base))
        ⊎ (((heap_of vm).addr_high < addr)
            × (ret ≡ enomem)
            × (((base ≡ 0) × ((heap_of next).addr_high ≡ addr))
                ⊎ (¬ IsClear vm addr × ((heap_of next).addr_high ≡ (heap_of vm).addr_high)))))

module _ (vm : VirtualMachine) (addr base : ℕ) (layout : IsLayout vm.pmr_ops vm.nr_pmr_ops)
    (inside : vm.vma_heap < vm.nr_pmr_ops) where
  -- A heap that begins where it began, ends behind that and ahead of the next region.
  resized-KeepsRegions :
      (next : VirtualMachine)
      → next.nr_pmr_ops ≡ vm.nr_pmr_ops
      → next.vma_heap ≡ vm.vma_heap
      → ((i : ℕ) → i ≢ vm.vma_heap → next.pmr_ops i ≡ vm.pmr_ops i)
      → (next.pmr_ops vm.vma_heap).addr_low ≡ (heap_of vm).addr_low
      → IsRegion (next.pmr_ops vm.vma_heap)
      → IsClear vm (next.pmr_ops vm.vma_heap).addr_high
      → KeepsRegions vm next
  resized-KeepsRegions next count heap others low is clear = (
    record {
      regions = λ i lt. elim (Bool-cases (i == vm.vma_heap)) [
        | inl this ↦ let e : i ≡ vm.vma_heap = ground arith in rw e is
        | inr other ↦ rw (others i (λ e. ground arith)) (layout.regions i (omega arith))
      ];
      ascending = λ i j less lt. elim (Bool-cases (i == vm.vma_heap)) [
        | inl this ↦
            let e : i ≡ vm.vma_heap = ground arith in
            rw (e, others j (λ z. omega arith)) (clear j (omega arith) (omega arith))
        | inr other ↦ rw (others i (λ e. ground arith)) (elim (Bool-cases (j == vm.vma_heap)) [
          | inl that ↦
              let e : j ≡ vm.vma_heap = ground arith in
              rw (e, low) (layout.ascending i vm.vma_heap (omega arith) inside)
          | inr far ↦ rw (others j (λ e. ground arith)) (layout.ascending i j less (omega arith))
        ])
      ];
    },
    count,
    heap,
    others,
    rw heap low,
  )

  eligible-IsClear :
      (heap_of vm).addr_high < addr
      → (is_vma_eligible (with_heap_end vm addr) vm.vma_heap ≡ true)
      → IsClear vm addr
  unfolding with_heap_end store
  eligible-IsClear grows yes_eligible i less lt =
      let (found, clear) =
        (is_vma_eligible-IsEligible (with_heap_end vm addr) vm.vma_heap).0 yes_eligible in
      let filled = (layout.regions vm.vma_heap inside).filled in
      ground (arith, clear i, layout.ascending vm.vma_heap i less lt, filled)

  IsClear-eligible :
      (heap_of vm).addr_high < addr
      → IsClear vm addr
      → is_vma_eligible (with_heap_end vm addr) vm.vma_heap ≡ true
  unfolding with_heap_end store
  IsClear-eligible grows clear =
      (is_vma_eligible-IsEligible (with_heap_end vm addr) vm.vma_heap).1 (
        inside,
        λ i lt differ behind.
            let filled = (layout.regions i lt).filled in
            ground (arith, clear i, layout.ascending i vm.vma_heap, filled, differ),
      )

  unchanged :
      addr ≤ (heap_of vm).addr_high
      → KeepsRegions vm vm × Ends vm addr base (vm, (heap_of vm).addr_high)
  unchanged low = ((layout, refl, refl, λ i differ. refl, refl), inl (low, refl, refl))

  IsClear-now : IsClear vm (heap_of vm).addr_high
  IsClear-now i less lt = layout.ascending vm.vma_heap i less lt

  abbrev grown_to : VirtualMachine
  grown_to = with_heap_base (with_heap_end vm addr) base

  same_index : (vm.vma_heap == vm.vma_heap) ≡ true
  same_index = ground arith

  other_index : (i : ℕ) → i ≢ vm.vma_heap → (i == vm.vma_heap) ≡ false
  other_index i differ = ground (arith, differ)

  grown-KeepsRegions :
      (heap_of vm).addr_high < addr → addr < 2 ^ 32 → IsClear vm addr → KeepsRegions vm grown_to
  unfolding with_heap_end with_heap_base store
  grown-KeepsRegions above fits clear =
      let filled = (layout.regions vm.vma_heap inside).filled in
      resized-KeepsRegions grown_to refl refl (λ i differ. rw (store, other_index i differ) refl)
        (rw (store, same_index) refl)
        (record {
          filled = rw (store, same_index) (omega arith);
          fits = rw (store, same_index) fits;
        })
        (rw (store, same_index) clear)

  grown-heap : ((heap_of grown_to).addr_high ≡ addr) × ((heap_of grown_to).host_base ≡ base)
  unfolding with_heap_end with_heap_base store
  grown-heap = (rw (store, same_index) refl, rw (store, same_index) refl)

  abbrev put_back : VirtualMachine
  put_back = with_heap_end (with_heap_end vm addr) (heap_of vm).addr_high

  put_back-KeepsRegions : KeepsRegions vm put_back
  unfolding with_heap_end store
  put_back-KeepsRegions =
      let is = layout.regions vm.vma_heap inside in
      resized-KeepsRegions put_back refl refl (λ i differ. rw (store, other_index i differ) refl)
        (rw (store, same_index) refl)
        (record {
          filled = rw (store, same_index) is.filled;
          fits = rw (store, same_index) is.fits;
        })
        (rw (store, same_index) IsClear-now)

  put_back-heap : (heap_of put_back).addr_high ≡ (heap_of vm).addr_high
  unfolding with_heap_end store
  put_back-heap = rw (store, same_index) refl

  grown-Ends :
      (heap_of vm).addr_high < addr
      → IsClear vm addr
      → Ends vm addr base (grown_to, if base == 0 then enomem else addr)
  grown-Ends above clear =
      let (end, now) = grown-heap in
      elim (Bool-cases (base == 0)) [
        | inl nothing ↦ rw nothing (inr (inr (above, refl, inl (ground arith, end))))
        | inr something ↦ rw something (inr (inl (above, clear, ground arith, refl, end, now)))
      ]

  refused :
      (heap_of vm).addr_high < addr
      → is_vma_eligible (with_heap_end vm addr) vm.vma_heap ≡ false
      → Ends vm addr base (put_back, enomem)
  refused above not_eligible = inr (
      inr (
        above,
        refl,
        inr (λ clear. ground (arith, IsClear-eligible above clear, not_eligible), put_back-heap),
      ))

  -- With the regions in order, the pointer to the heap that of a region, and an address below 2^32:
  -- the call keeps the regions in order and all but the heap as they were. It returns the heap's
  -- end, with nothing changed, for an address up to there; else the address, which is the end from
  -- then on, where no region behind the heap begins below it and the host gives memory; else the
  -- error ENOMEM. The end is then as it was if a region is in the way, and the address if the host
  -- gives no memory.
  pub call_brk-Ends :
      addr < 2 ^ 32
      → KeepsRegions vm (call_brk vm addr base).0 × Ends vm addr base (call_brk vm addr base)
  unfolding call_brk
  call_brk-Ends fits = elim (Bool-cases (addr == 0 || leb addr (heap_of vm).addr_high)) [
    | inl stays ↦ rw stays (unchanged (ground arith))
    | inr grows ↦
        let above : (heap_of vm).addr_high < addr = ground arith in
        elim (Bool-cases (is_vma_eligible (with_heap_end vm addr) vm.vma_heap)) [
          | inl yes_eligible ↦
              rw (grows, yes_eligible)
                (let clear = eligible-IsClear above yes_eligible in
                  (grown-KeepsRegions above fits clear, grown-Ends above clear))
          | inr not_eligible ↦
              rw (grows, not_eligible) (put_back-KeepsRegions, refused above not_eligible)
        ]
  ]
