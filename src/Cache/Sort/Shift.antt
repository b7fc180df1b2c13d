-- ===== src/Cache/Sort/Shift.antt =====
-- What the moves of `INSERTION_SORT` leave: every element from the place on is one further up, and the
-- last one stands at the place.
use hyrule.Prelude.{ℕ, zero, suc, ◌+◌, ◌-◌, ◌≤◌, ◌≡◌, arith}
use hyrule.Prelude.{ltb, leb, ◌==◌, if◌then◌else◌, ◌||◌, ◌&&◌}
use hyrule.Cache.Memory.{Array, store}
use hyrule.Cache.Sort.{shift_up, move_to}

-- Where the element that stands at `i` in the end stood before, and the other way round.
abbrev pub source : ℕ → ℕ → ℕ → ℕ
source idx_move last i =
    if ltb i idx_move || ltb last i then i else (if i == idx_move then last else i - 1)

abbrev pub destination : ℕ → ℕ → ℕ → ℕ
destination idx_move last i =
    if ltb i idx_move || ltb last i then i else (if i == last then idx_move else i + 1)

pub source-destination :
    (idx_move last i : ℕ) → idx_move ≤ last → source idx_move last (destination idx_move last i) ≡ i
source-destination idx_move last i le = ground arith

pub destination-source :
    (idx_move last i : ℕ) → idx_move ≤ last → destination idx_move last (source idx_move last i) ≡ i
destination-source idx_move last i le = ground arith

pub source_below :
    (idx_move last i : ℕ) → idx_move ≤ last → i ≤ last → source idx_move last i ≤ last
source_below idx_move last i le inside = ground arith

pub destination_below :
    (idx_move last i : ℕ) → idx_move ≤ last → i ≤ last → destination idx_move last i ≤ last
destination_below idx_move last i le inside = ground arith

module _ {A : Type 0} where
  shift_up-at :
      (idx idx_move : ℕ) (a : Array A) (i : ℕ)
      → shift_up idx idx_move a i ≡ a (if ltb idx_move i && leb i idx then i - 1 else i)
  unfolding shift_up store
  shift_up-at zero idx_move a i = ground arith
  shift_up-at (suc idx) idx_move a i =
      ground (arith, shift_up-at idx idx_move (store a (suc idx) (a idx)) i)

  pub move_to-at :
      (idx_move last : ℕ) (a : Array A) (i : ℕ)
      → idx_move ≤ last
      → move_to idx_move last a i ≡ a (source idx_move last i)
  unfolding move_to store
  move_to-at idx_move last a i le = ground (arith, shift_up-at last idx_move a i)
