-- ===== src/Cache/Order.antt =====
-- The three-way comparison that sandbox/search.h and sandbox/sort.h are instantiated with: an `int`
-- that is zero, negative or positive, and what it says of keys.
use hyrule.Prelude.{ℕ, zero, suc, ◌≤◌, ◌<◌, ◌≡◌, Bool, true, false, ◌||◌, ltb, ◌==◌}
use hyrule.Prelude.Int.{ℤ, pos, negsuc}
use hyrule.Cache.Memory.{Array}

abbrev pub is_zero : ℤ → Bool
is_zero (pos zero) = true
is_zero (pos (suc n)) = false
is_zero (negsuc n) = false

abbrev pub is_negative : ℤ → Bool
is_negative (pos n) = false
is_negative (negsuc n) = true

-- `comp(a, b) <= 0`.
abbrev pub is_at_most_zero : ℤ → Bool
is_at_most_zero c = is_zero c || is_negative c

module _ {A : Type 0} (comp : A → A → ℤ) (key : A → ℕ) where
  -- The comparison of `x` with `y` is that of their keys.
  pub record Compares (x y : A) : Type 0 where
    pub zero_is : is_zero (comp x y) ≡ (key x == key y)
    pub negative_is : is_negative (comp x y) ≡ ltb (key x) (key y)

module _ {A : Type 0} (key : A → ℕ) where
  -- The first `num` elements stand in ascending order, equal keys allowed.
  abbrev pub IsSorted : Array A → ℕ → Type 0
  IsSorted a num = (i j : ℕ) → i ≤ j → j < num → key (a i) ≤ key (a j)
