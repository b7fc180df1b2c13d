-- ===== src/Cache/Search/Finds.antt =====
-- `SEARCH` returns, whatever the comparison says; where it compares keys and the array is sorted, it
-- finds an element with the target's key exactly if there is one.
use hyrule.Prelude.{ℕ, zero, suc, ◌+◌, ◌/◌, ◌≤◌, ◌<◌, ◌≡◌, refl, ◌≢◌, ◌⊎◌, inl, arith}
use hyrule.Prelude.{Option, none, some}
use hyrule.Prelude.Int.{ℤ}
use hyrule.Cache.Memory.{Array}
use hyrule.Cache.Order.{Compares, IsSorted}
use hyrule.Prelude.Returns.{Returns}
use hyrule.Cache.Window.{Settles, window_loop-Returns}
use hyrule.Cache.Search.{search_round, search}

-- An index that was found is one of the array's.
abbrev IsBelow : ℕ → Option ℕ → Type 0
IsBelow num none = Unit
IsBelow num (some i) = i < num

-- What is found has the target's key, and nothing is found only if no element has it.
abbrev pub Finds : {A : Type 0} → Array A → A → (A → ℕ) → ℕ → Option ℕ → Type 0
Finds a target key num none = (i : ℕ) → i < num → key (a i) ≢ key target
Finds a target key num (some i) = (i < num) × (key (a i) ≡ key target)

module _ {A : Type 0} (comp : A → A → ℤ) (a : Array A) (target : A) where
  abbrev IsInside : ℕ → ℕ → ℕ → Type 0
  IsInside num low high = (low ≤ high) × (high < num)

  round-IsInside :
      (num low high : ℕ)
      → IsInside num low high
      → Settles (IsInside num) (IsBelow num) low high (search_round comp a target low high)
  unfolding search_round
  round-IsInside num low high inside = ground arith

  -- For every comparison, array and target, sorted or not: the search returns within as many rounds
  -- as there are elements, and an index that it returns is one of the array's.
  search-Returns : (num : ℕ) → Returns (search comp a target num) (IsBelow num)
  unfolding search
  search-Returns zero = tt
  search-Returns (suc last) =
      window_loop-Returns (IsInside (suc last)) (IsBelow (suc last)) (search_round comp a target)
        (λ low high i. i.0) (round-IsInside (suc last)) (suc last) 0 last (omega arith)
        (omega arith, omega arith)

  module _ (key : A → ℕ) where
    module _ (last : ℕ) (sorted : IsSorted key a (suc last))
        (compares : (i : ℕ) → i < suc last → Compares comp key target (a i)) where
      record Window (low high : ℕ) : Type 0 where
        ordered : low ≤ high
        inside : high ≤ last
        below : (low ≡ 0) ⊎ (key (a low) ≤ key target)
        above : (high ≡ last) ⊎ (key target < key (a high))

      none_left :
          (low high : ℕ)
          → Window low high
          → high ≤ low + 1
          → key target ≢ key (a low)
          → key target ≢ key (a high)
          → Finds a target key (suc last) none
      none_left low high w close not_low not_high i lt e =
          ground (arith, sorted i low, sorted high i)

      round-Window :
          (low high : ℕ)
          → Window low high
          → Settles Window
              (Finds a target key (suc last))
              low
              high
              (search_round comp a target low high)
      unfolding search_round
      round-Window low high w =
          let at_low = compares low (omega (arith, w.ordered, w.inside)) in
          let at_high = compares high (omega (arith, w.inside)) in
          let at_mid = compares ((low + high) / 2) (omega (arith, w.ordered, w.inside)) in
          rw (at_low.zero_is, at_high.zero_is, at_mid.negative_is)
            (ground (arith, none_left low high w))

    -- In an array whose elements are sorted by a key, with a comparison of the target with each of
    -- them that is the one of their keys: the search returns within as many rounds as there are
    -- elements, an index of the array with the target's key, or none, and then no element has that
    -- key.
    pub search-Finds :
        (num : ℕ)
        → IsSorted key a num
        → ((i : ℕ) → i < num → Compares comp key target (a i))
        → Returns (search comp a target num) (Finds a target key num)
    unfolding search
    search-Finds zero sorted compares = λ i lt. absurd (omega arith)
    search-Finds (suc last) sorted compares =
        window_loop-Returns (Window last sorted compares) (Finds a target key (suc last))
          (search_round comp a target) (λ low high w. w.ordered) (round-Window last sorted compares)
          (suc last) 0 last (omega arith)
          (record {
            ordered = omega arith;
            inside = omega arith;
            below = inl refl;
            above = inl refl;
          })
