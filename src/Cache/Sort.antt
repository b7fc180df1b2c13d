-- ===== src/Cache/Sort.antt =====
-- sandbox/sort.h: `INSERTION_SORT`, which brings the last element of an array to its place among the
-- others, already sorted.
pub mod Shift
pub mod Place
pub mod Inserts
use hyrule.Prelude.{ℕ, zero, suc, ◌+◌, ◌/◌, Bool, true, false, ◌||◌, Option, none, some}
use hyrule.Prelude.{ltb, leb, ◌==◌, if◌then◌else◌}
use hyrule.Prelude.Int.{ℤ}
use hyrule.Cache.Memory.{Array, store}
use hyrule.Cache.Order.{is_at_most_zero, is_negative}
use hyrule.Cache.Window.{Round, leave, go_on, window_loop}

module _ {A : Type 0} (comp : A → A → ℤ) (a : Array A) (target : A) where
  -- The search for the place: `__idx_move` when the loop is left, 0 if its condition fails.
  unfoldable pub place_round : ℕ → ℕ → Round ℕ
  place_round idx_low idx_high =
      let idx_mid = (idx_low + idx_high) / 2 in
      if leb idx_low idx_high
      then (if is_at_most_zero (comp target (a idx_low))
          then leave idx_low
          else (if is_at_most_zero (comp (a idx_high) target)
              then leave (idx_high + 1)
              else (if idx_mid == idx_low || idx_mid == idx_high
                  then leave (idx_mid + 1)
                  else (if is_negative (comp target (a idx_mid))
                      then go_on idx_low idx_mid
                      else go_on idx_mid idx_high))))
      else leave 0

  -- With one element `__idx_high` is -1.
  unfoldable pub place : ℕ → Option ℕ
  place zero = some 0
  place (suc last) = window_loop place_round (suc last) 0 last

module _ {A : Type 0} where
  -- `for (; __idx > __idx_move; __idx--) a[__idx] = a[__idx - 1]`.
  unfoldable pub shift_up : ℕ → ℕ → Array A → Array A
  shift_up zero idx_move a = a
  shift_up (suc idx) idx_move a = elim (ltb idx_move (suc idx)) [
    | true ↦ shift_up idx idx_move (store a (suc idx) (a idx))
    | false ↦ a
  ]

  -- The element at `last` is put to `idx_move`, if that is not where it stands.
  unfoldable pub move_to : ℕ → ℕ → Array A → Array A
  move_to idx_move last a =
      if ltb idx_move last then store (shift_up last idx_move a) idx_move (a last) else a

  unfoldable pub insertion_sort : (A → A → ℤ) → Array A → ℕ → Option (Array A)
  insertion_sort comp a zero = some a
  insertion_sort comp a (suc last) = elim (place comp a (a last) last) [
    | none ↦ none
    | some idx_move ↦ some (move_to idx_move last a)
  ]
