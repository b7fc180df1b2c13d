-- ===== src/Cache/Window.antt =====
-- The loops of sandbox/search.h and sandbox/sort.h: rounds over a window `idx_low`..`idx_high` of an
-- array.
use hyrule.Prelude.{ℕ, zero, suc, ◌+◌, ◌≤◌, ◌<◌, arith, Option, none, some}
use hyrule.Prelude.Returns.{Returns}

-- A round leaves the loop with a result, or goes on with a window.
pub data Round (R : Type 0) : Type 0 where
  leave : R → Round R
  go_on : ℕ → ℕ → Round R

-- On fuel, which `none` has run out of.
unfoldable pub window_loop : {R : Type 0} → (ℕ → ℕ → Round R) → ℕ → ℕ → ℕ → Option R
window_loop round zero idx_low idx_high = none
window_loop round (suc fuel) idx_low idx_high = elim (round idx_low idx_high) [
  | leave r ↦ some r
  | go_on low high ↦ window_loop round fuel low high
]

module _ {R : Type 0} (I : ℕ → ℕ → Type 0) (P : R → Type 0) where
  -- The result is right, or the next window is a smaller one with the invariant.
  abbrev pub Settles : ℕ → ℕ → Round R → Type 0
  Settles low high (leave r) = P r
  Settles low high (go_on l h) = I l h × (h + low < high + l)

  after :
      (low high fuel : ℕ) (round : ℕ → ℕ → Round R) (r : Round R)
      → high < low + suc fuel
      → Settles low high r
      → ((l h : ℕ) → h < l + fuel → I l h → Returns (window_loop round fuel l h) P)
      → Returns (elim r [ leave x ↦ some x | go_on l h ↦ window_loop round fuel l h ]) P
  after low high fuel round (leave x) enough s rest = s
  after low high fuel round (go_on l h) enough (i, smaller) rest = rest l h (omega arith) i

  -- Fuel for every element of the window is enough.
  pub window_loop-Returns :
      (round : ℕ → ℕ → Round R)
      → ((low high : ℕ) → I low high → low ≤ high)
      → ((low high : ℕ) → I low high → Settles low high (round low high))
      → (fuel low high : ℕ) → high < low + fuel
      → I low high
      → Returns (window_loop round fuel low high) P
  unfolding window_loop
  window_loop-Returns round ordered step zero low high enough i =
      absurd (omega (arith, ordered low high i))
  window_loop-Returns round ordered step (suc fuel) low high enough i =
      after low high fuel round (round low high) enough (step low high i)
        (window_loop-Returns round ordered step fuel)
