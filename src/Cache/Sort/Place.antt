-- ===== src/Cache/Sort/Place.antt =====
-- The search for the place in `INSERTION_SORT` returns, whatever the comparison says; where it compares
-- keys and the other elements are sorted, the place is between those below and those above.
use hyrule.Prelude.{ℕ, zero, suc, ◌+◌, ◌/◌, ◌≤◌, ◌<◌, ◌≡◌, refl, ◌≢◌, ◌⊎◌, inl, arith}
use hyrule.Prelude.Int.{ℤ}
use hyrule.Cache.Memory.{Array}
use hyrule.Cache.Order.{Compares, IsSorted}
use hyrule.Prelude.Returns.{Returns}
use hyrule.Cache.Window.{Settles, window_loop-Returns}
use hyrule.Cache.Sort.{place_round, place}

module _ {A : Type 0} (comp : A → A → ℤ) (a : Array A) (target : A) where
  abbrev IsInside : ℕ → ℕ → ℕ → Type 0
  IsInside num low high = (low ≤ high) × (high < num)

  round-IsInside :
      (num low high : ℕ)
      → IsInside num low high
      → Settles (IsInside num) (λ m. m ≤ num) low high (place_round comp a target low high)
  unfolding place_round
  round-IsInside num low high inside = ground arith

  pub place-Returns : (num : ℕ) → Returns (place comp a target num) (λ m. m ≤ num)
  unfolding place
  place-Returns zero = omega arith
  place-Returns (suc last) =
      window_loop-Returns (IsInside (suc last)) (λ m. m ≤ suc last) (place_round comp a target)
        (λ low high i. i.0) (round-IsInside (suc last)) (suc last) 0 last (omega arith)
        (omega arith, omega arith)

  module _ (key : A → ℕ) where
    -- The elements before the place are not above the target, those from it on not below.
    pub record IsPlace (num m : ℕ) : Type 0 where
      pub inside : m ≤ num
      pub before : (i : ℕ) → i < m → key (a i) ≤ key target
      pub behind : (i : ℕ) → m ≤ i → i < num → key target ≤ key (a i)

    module _ (last : ℕ) (sorted : IsSorted key a (suc last))
        (compares : (i : ℕ) → i < suc last → Compares comp key target (a i))
        (compared : (i : ℕ) → i < suc last → Compares comp key (a i) target) where
      record Window (low high : ℕ) : Type 0 where
        ordered : low ≤ high
        inside : high ≤ last
        below : (low ≡ 0) ⊎ (key (a low) ≤ key target)
        above : (high ≡ last) ⊎ (key target < key (a high))

      at_low : (low high : ℕ) → Window low high → key target ≤ key (a low) → IsPlace (suc last) low
      at_low low high w le = record {
        inside = omega (arith, w.ordered, w.inside);
        before = λ i lt. ground (arith, sorted i low, w.below, w.ordered, w.inside);
        behind = λ i from lt. omega (arith, sorted low i);
      }

      above_high :
          (low high : ℕ)
          → Window low high
          → key (a high) ≤ key target
          → IsPlace (suc last) (high + 1)
      above_high low high w le = record {
        inside = omega (arith, w.inside);
        before = λ i lt. ground (arith, sorted i high, w.inside);
        behind = λ i from lt. ground (arith, w.above);
      }

      between :
          (low high : ℕ)
          → Window low high
          → high ≤ low + 1
          → key (a low) ≤ key target
          → key target ≤ key (a high)
          → low ≢ high
          → IsPlace (suc last) (low + 1)
      between low high w close le_low le_high ne = record {
        inside = omega (arith, w.ordered, w.inside);
        before = λ i lt. ground (arith, sorted i low, w.ordered, w.inside);
        behind = λ i from lt. ground (arith, sorted high i, w.ordered);
      }

      round-Window :
          (low high : ℕ)
          → Window low high
          → Settles Window (IsPlace (suc last)) low high (place_round comp a target low high)
      unfolding place_round
      round-Window low high w =
          let with_low = compares low (omega (arith, w.ordered, w.inside)) in
          let with_high = compared high (omega (arith, w.inside)) in
          let with_mid = compares ((low + high) / 2) (omega (arith, w.ordered, w.inside)) in
          rw
            (
              with_low.zero_is, with_low.negative_is, with_high.zero_is, with_high.negative_is,
              with_mid.negative_is,
            )
            (ground (arith, at_low low high w, above_high low high w, between low high w))

    pub place-IsPlace :
        (num : ℕ)
        → IsSorted key a num
        → ((i : ℕ) → i < num → Compares comp key target (a i))
        → ((i : ℕ) → i < num → Compares comp key (a i) target)
        → Returns (place comp a target num) (IsPlace num)
    unfolding place
    place-IsPlace zero sorted compares compared = record {
      inside = omega arith;
      before = λ i lt. absurd (omega arith);
      behind = λ i from lt. absurd (omega arith);
    }
    place-IsPlace (suc last) sorted compares compared =
        window_loop-Returns (Window last sorted compares compared) (IsPlace (suc last))
          (place_round comp a target) (λ low high w. w.ordered)
          (round-Window last sorted compares compared) (suc last) 0 last (omega arith)
          (record {
            ordered = omega arith;
            inside = omega arith;
            below = inl refl;
            above = inl refl;
          })
