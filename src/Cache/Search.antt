-- ===== src/Cache/Search.antt =====
-- sandbox/search.h: `SEARCH`, a binary search that tests both ends of its window before the middle.
pub mod Finds
use hyrule.Prelude.{ℕ, zero, suc, ◌+◌, ◌/◌, Bool, true, false, ◌||◌, Option, none, some}
use hyrule.Prelude.{leb, ◌==◌, if◌then◌else◌}
use hyrule.Prelude.Int.{ℤ}
use hyrule.Cache.Memory.{Array}
use hyrule.Cache.Window.{Round, leave, go_on, window_loop}
use hyrule.Cache.Order.{is_zero, is_negative}

module _ {A : Type 0} (comp : A → A → ℤ) (a : Array A) (target : A) where
  -- The loop's condition and body; `none` is the null pointer.
  unfoldable pub search_round : ℕ → ℕ → Round (Option ℕ)
  search_round idx_low idx_high =
      let idx_mid = (idx_low + idx_high) / 2 in
      if leb idx_low idx_high
      then (if is_zero (comp target (a idx_low))
          then leave (some idx_low)
          else (if is_zero (comp target (a idx_high))
              then leave (some idx_high)
              else (if idx_mid == idx_low || idx_mid == idx_high
                  then leave none
                  else (if is_negative (comp target (a idx_mid))
                      then go_on idx_low idx_mid
                      else go_on idx_mid idx_high))))
      else leave none

  -- The window of no elements ends at -1, so the loop is not entered; `none` has run out of fuel.
  unfoldable pub search : ℕ → Option (Option ℕ)
  search zero = some none
  search (suc last) = window_loop search_round (suc last) 0 last
