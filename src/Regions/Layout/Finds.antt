-- ===== src/Regions/Layout/Finds.antt =====
-- `search_pm_region_callback` of sandbox/pm_region.c finds the region of an address.
use hyrule.Prelude.{ℕ, zero, suc, ◌+◌, ◌/◌, ◌^◌, ◌≤◌, ◌<◌, ◌≡◌, refl, ◌⊎◌, inl, arith}
use hyrule.Prelude.{Option, none, some}
use hyrule.Prelude.Returns.{Returns}
use hyrule.Cache.Memory.{Array}
use hyrule.Cache.Window.{Settles, window_loop-Returns}
use hyrule.Regions.{
  PmRegionOperation, VirtualMachine, pm_region_operation_compare, target_of,
  search_pm_region_callback,
}
use hyrule.Regions.Lookup.{ended, lookup_round, lookup}
use hyrule.Regions.Layout.{Holds, IsLayout, compare-side}

-- The index found is that of a region with the address; the null pointer is for no such region.
abbrev pub FindsRegion : Array PmRegionOperation → ℕ → ℕ → Option ℕ → Type 0
FindsRegion ops num p none = (i : ℕ) → i < num → ¬ Holds (ops i) p
FindsRegion ops num p (some i) = (i < num) × Holds (ops i) p

ended-Returns :
    {R : Type 0} (P : R → Type 0) (o : Option (Option R))
    → Returns o (λ r. Returns r P)
    → Returns (ended o) P
ended-Returns P none bad = bad
ended-Returns P (some r) p = p

module _ (ops : Array PmRegionOperation) (last p : ℕ) (small : p + 1 < 2 ^ 32)
    (layout : IsLayout ops (suc last)) where
  abbrev Settled : Option (Option ℕ) → Type 0
  Settled o = Returns o (FindsRegion ops (suc last) p)

  record Window (low high : ℕ) : Type 0 where
    ordered : low ≤ high
    inside : high ≤ last
    below : (low ≡ 0) ⊎ ((ops low).addr_low ≤ p)
    above : (high ≡ last) ⊎ (p < (ops high).addr_low)

  none_left :
      (low high : ℕ)
      → Window low high
      → high ≤ low + 1
      → ¬ Holds (ops low) p
      → ¬ Holds (ops high) p
      → FindsRegion ops (suc last) p none
  none_left low high w close not_low not_high i lt (from, to) = ground (
    arith,
    layout.ascending i low,
    layout.ascending low i,
    layout.ascending high i,
    layout.ascending i high,
    (layout.regions i lt).filled,
    (layout.regions low (omega (arith, w.ordered, w.inside))).filled,
    (layout.regions high (omega (arith, w.inside))).filled,
  )

  round-Window :
      (low high : ℕ)
      → Window low high
      → Settles Window Settled low high
          (lookup_round pm_region_operation_compare ops (target_of p) low high)
  unfolding lookup_round
  round-Window low high w =
      let is_low = layout.regions low (omega (arith, w.ordered, w.inside)) in
      let is_high = layout.regions high (omega (arith, w.inside)) in
      let is_mid = layout.regions ((low + high) / 2) (omega (arith, w.ordered, w.inside)) in
      rw
        (
          compare-side p (ops low) small is_low,
          compare-side p (ops high) small is_high,
          compare-side p (ops ((low + high) / 2)) small is_mid,
        )
        (ground (arith, none_left low high w))

pub lookup-Finds :
    (ops : Array PmRegionOperation) (num p : ℕ)
    → p + 1 < 2 ^ 32
    → IsLayout ops num
    → Returns (lookup pm_region_operation_compare ops (target_of p) num) (FindsRegion ops num p)
unfolding lookup
lookup-Finds ops zero p small layout = λ i lt. absurd (omega arith)
lookup-Finds ops (suc last) p small layout = ended-Returns (FindsRegion ops (suc last) p) _ (
    window_loop-Returns (Window ops last p small layout) (Settled ops last p small layout)
      (lookup_round pm_region_operation_compare ops (target_of p)) (λ low high w. w.ordered)
      (round-Window ops last p small layout) (suc last) 0 last (omega arith)
      (record { ordered = omega arith; inside = omega arith; below = inl refl; above = inl refl }))

-- With the regions in order, an address below 2^32 - 1: the search returns, without a failed
-- assertion, the index of a region that holds the address, or the null pointer, and then no region
-- holds it.
pub search_pm_region_callback-FindsRegion :
    (vm : VirtualMachine) (guest_pa : ℕ)
    → guest_pa + 1 < 2 ^ 32
    → IsLayout vm.pmr_ops vm.nr_pmr_ops
    → Returns
        (search_pm_region_callback vm guest_pa)
        (FindsRegion vm.pmr_ops vm.nr_pmr_ops guest_pa)
unfolding search_pm_region_callback
search_pm_region_callback-FindsRegion vm guest_pa small layout =
    lookup-Finds vm.pmr_ops vm.nr_pmr_ops guest_pa small layout
