-- ===== src/Regions/Eligible.antt =====
-- `is_vma_eligible` of sandbox/pm_region.c.
use hyrule.Prelude.{ℕ, zero, suc, ◌+◌, ◌≤◌, ◌<◌, ◌≡◌, refl, ◌≢◌, ◌↔◌, ◌⊎◌, inl, inr, arith}
use hyrule.Prelude.{Bool, true, false, Bool-cases, ◌==◌}
use hyrule.Regions.{VirtualMachine, begins_inside, vma_loop, is_vma_eligible}
use hyrule.Regions.Layout.{IsLayout}

-- No other region begins behind the vma's first address and before its end.
abbrev pub IsEligible : VirtualMachine → ℕ → Type 0
IsEligible vm vma =
    (vma < vm.nr_pmr_ops)
    × ((i : ℕ)
        → i < vm.nr_pmr_ops
        → i ≢ vma
        → (vm.pmr_ops vma).addr_low < (vm.pmr_ops i).addr_low
        → (vm.pmr_ops vma).addr_high ≤ (vm.pmr_ops i).addr_low)

module _ (vm : VirtualMachine) (vma : ℕ) where
  vma_loop-Sound :
      (n idx : ℕ) (vma_found : Bool)
      → vma_loop vm vma n idx vma_found ≡ true
      → ((vma_found ≡ true) ⊎ ((idx ≤ vma) × (vma < idx + n)))
        × ((i : ℕ) → idx ≤ i → i < idx + n → i ≢ vma → begins_inside vm vma i ≡ false)
  unfolding vma_loop
  vma_loop-Sound zero idx vma_found run = (inl run, λ i le lt differ. absurd (omega arith))
  vma_loop-Sound (suc n) idx vma_found run = elim (Bool-cases (idx == vma)) [
    | inl same ↦
        let e : idx ≡ vma = ground arith in
        let rest = (vma_loop-Sound n (idx + 1) true (rw (vma_loop, same) at run)).1 in
        (
          inr (omega arith, omega arith),
          λ i le lt differ. rest i (ground (arith, differ)) (omega arith) differ,
        )
    | inr other ↦ elim (Bool-cases (begins_inside vm vma idx)) [
      | inl inside ↦ absurd (ground (arith, rw (vma_loop, other, inside) at run))
      | inr outside ↦
          let (found, rest) =
            vma_loop-Sound n (idx + 1) vma_found (rw (vma_loop, other, outside) at run) in
          (
            ground (arith, found),
            λ i le lt differ. elim (Bool-cases (i == idx)) [
              | inl here ↦ let e : i ≡ idx = ground arith in rw e outside
              | inr there ↦ rest i (ground arith) (omega arith) differ
            ],
          )
    ]
  ]

  vma_loop-Complete :
      (n idx : ℕ) (vma_found : Bool)
      → ((vma_found ≡ true) ⊎ ((idx ≤ vma) × (vma < idx + n)))
      → ((i : ℕ) → idx ≤ i → i < idx + n → i ≢ vma → begins_inside vm vma i ≡ false)
      → vma_loop vm vma n idx vma_found ≡ true
  unfolding vma_loop
  vma_loop-Complete zero idx vma_found (inl found) clear = found
  vma_loop-Complete zero idx vma_found (inr (le, lt)) clear = absurd (omega arith)
  vma_loop-Complete (suc n) idx vma_found at clear = elim (Bool-cases (idx == vma)) [
    | inl same ↦
        rw (vma_loop, same)
          (vma_loop-Complete n (idx + 1) true (inl refl)
            (λ i le lt differ. clear i (omega arith) (omega arith) differ))
    | inr other ↦
        rw (vma_loop, other, clear idx (omega arith) (omega arith) (λ e. ground arith))
          (vma_loop-Complete n (idx + 1) vma_found (ground (arith, at))
            (λ i le lt differ. clear i (omega arith) (omega arith) differ))
  ]

  -- For every vma: the test says yes exactly if the vma is one of the regions and no other region
  -- begins behind its first address and before its end.
  pub is_vma_eligible-IsEligible : (is_vma_eligible vm vma ≡ true) ↔ IsEligible vm vma
  unfolding is_vma_eligible begins_inside
  is_vma_eligible-IsEligible = (
    λ run.
        let (found, clear) = vma_loop-Sound vm.nr_pmr_ops 0 false run in
        (
          ground (arith, found),
          λ i lt differ behind. ground (arith, clear i (omega arith) (omega arith) differ),
        ),
    λ (lt, clear).
        vma_loop-Complete vm.nr_pmr_ops 0 false (inr (omega arith, omega arith))
          (λ i le below differ. ground (arith, clear i (omega arith) differ)),
  )

-- In a layout every region is eligible.
pub IsLayout-IsEligible :
    (vm : VirtualMachine) (vma : ℕ)
    → IsLayout vm.pmr_ops vm.nr_pmr_ops
    → vma < vm.nr_pmr_ops
    → IsEligible vm vma
IsLayout-IsEligible vm vma layout lt = (
  lt,
  λ i below differ behind. ground (
    arith,
    layout.ascending i vma,
    layout.ascending vma i,
    (layout.regions i below).filled,
    differ,
  ),
)
