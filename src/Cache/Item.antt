-- ===== src/Cache/Item.antt =====
-- `comparing_mapping_item` of sandbox/hart.c against the order of the pcs.
use hyrule.Prelude.{ℕ, ◌+◌, ◌^◌, ◌≤◌, ◌<◌, ◌↔◌, arith}
use hyrule.Cache.{MappingItem, comparing_mapping_item}
use hyrule.Cache.Order.{Compares}

-- The difference, read as an `int`, is the one of the pcs.
abbrev pub IsNear : ℕ → ℕ → Type 0
IsNear p q = (p < q + 2 ^ 31) × (q ≤ p + 2 ^ 31)

abbrev pub ComparesItems : MappingItem → MappingItem → Type 0
ComparesItems = Compares comparing_mapping_item (λ item. item.guest_pc)

module _ (a b : MappingItem) (fits_a : a.guest_pc < 2 ^ 32) (fits_b : b.guest_pc < 2 ^ 32) where
  IsNear-Compares : IsNear a.guest_pc b.guest_pc → ComparesItems a b
  unfolding comparing_mapping_item
  IsNear-Compares near = record { zero_is = ground arith; negative_is = ground arith }

  Compares-IsNear : ComparesItems a b → IsNear a.guest_pc b.guest_pc
  unfolding comparing_mapping_item
  Compares-IsNear c = ground (arith, c.negative_is)

  -- For two items with pcs of 32 bits: the comparison is zero exactly for equal pcs and negative
  -- exactly for the first below the second, if and only if the first pc is less than the second plus
  -- 2^31 and the second at most the first plus 2^31.
  pub comparing_mapping_item-Compares : ComparesItems a b ↔ IsNear a.guest_pc b.guest_pc
  comparing_mapping_item-Compares = (Compares-IsNear, IsNear-Compares)
