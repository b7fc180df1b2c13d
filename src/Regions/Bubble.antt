-- ===== src/Regions/Bubble.antt =====
-- sandbox/sort.h: `SORT`, a bubble sort, with a comparison that contains assertions.
pub mod Rearranges
pub mod Sorts
use hyrule.Prelude.{ℕ, zero, suc, ◌+◌, Bool, true, false, not, ◌||◌, Option, none, some}
use hyrule.Prelude.{if◌then◌else◌}
use hyrule.Prelude.Int.{ℤ}
use hyrule.Cache.Memory.{Array, store}
use hyrule.Cache.Order.{is_at_most_zero}

-- `comp(a, b) > 0`.
abbrev pub is_positive : ℤ → Bool
is_positive c = not (is_at_most_zero c)

module _ {A : Type 0} where
  unfoldable pub swap_next : Array A → ℕ → Array A
  swap_next a idx_in = store (store a idx_in (a (idx_in + 1))) (idx_in + 1) (a idx_in)

  module _ (comp : A → A → Option ℤ) where
    -- The inner loop, by the rounds that are left of it; `none` is a failed assertion.
    unfoldable pub bubble_up : ℕ → ℕ → Array A → Option (Array A)
    bubble_up zero idx_in a = some a
    bubble_up (suc n) idx_in a = elim (comp (a idx_in) (a (idx_in + 1))) [
      | none ↦ none
      | some c ↦ bubble_up n (idx_in + 1) (if is_positive c then swap_next a idx_in else a)
    ]

    -- The outer loop, from `idx_out` down to 1.
    unfoldable pub bubble_out : ℕ → Array A → Option (Array A)
    bubble_out zero a = some a
    bubble_out (suc idx_out) a = elim (bubble_up (suc idx_out) 0 a) [
      | none ↦ none
      | some b ↦ bubble_out idx_out b
    ]

    -- Without elements `idx_out` starts at -1.
    unfoldable pub sort : Array A → ℕ → Option (Array A)
    sort a zero = some a
    sort a (suc last) = bubble_out last a
