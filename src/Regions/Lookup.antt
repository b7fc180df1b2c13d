-- ===== src/Regions/Lookup.antt =====
-- sandbox/search.h: `SEARCH` with a comparison that contains assertions.
use hyrule.Prelude.{ℕ, zero, suc, ◌+◌, ◌/◌, Bool, ◌||◌, Option, none, some}
use hyrule.Prelude.{leb, ◌==◌, if◌then◌else◌}
use hyrule.Prelude.Int.{ℤ}
use hyrule.Cache.Memory.{Array}
use hyrule.Cache.Order.{is_zero, is_negative}
use hyrule.Cache.Window.{Round, leave, go_on, window_loop}

-- A test of what the comparison returns; a failed assertion ends the loop with `none`.
abbrev pub check :
    {R : Type 0} → Option ℤ → (ℤ → Bool) → Round (Option R) → Round (Option R) → Round (Option R)
check none test hit miss = leave none
check (some c) test hit miss = if test c then hit else miss

-- The loop has used up its fuel, or it has ended.
abbrev pub ended : {R : Type 0} → Option (Option R) → Option R
ended none = none
ended (some r) = r

module _ {A : Type 0} (comp : A → A → Option ℤ) (a : Array A) (target : A) where
  -- `some none` is the null pointer.
  unfoldable pub lookup_round : ℕ → ℕ → Round (Option (Option ℕ))
  lookup_round idx_low idx_high =
      let idx_mid = (idx_low + idx_high) / 2 in
      if leb idx_low idx_high
      then check (comp target (a idx_low)) is_zero (leave (some (some idx_low))) (
          check (comp target (a idx_high)) is_zero (leave (some (some idx_high))) (
            if idx_mid == idx_low || idx_mid == idx_high
            then leave (some none)
            else check (comp target (a idx_mid)) is_negative (go_on idx_low idx_mid)
                (go_on idx_mid idx_high)))
      else leave (some none)

  unfoldable pub lookup : ℕ → Option (Option ℕ)
  lookup zero = some none
  lookup (suc last) = ended (window_loop lookup_round (suc last) 0 last)
