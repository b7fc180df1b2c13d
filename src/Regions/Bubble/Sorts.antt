-- ===== src/Regions/Bubble/Sorts.antt =====
-- `SORT` of sandbox/sort.h sorts an array of elements that its comparison orders by a key.
use hyrule.Prelude.{ℕ, zero, suc, ◌+◌, ◌≤◌, ◌<◌, ◌≡◌, ◌≢◌, inl, inr, arith, Option}
use hyrule.Prelude.{Bool-cases, ltb, ◌==◌, if◌then◌else◌}
use hyrule.Prelude.Int.{ℤ}
use hyrule.Prelude.Returns.{Returns, Returns-map, Returns-then}
use hyrule.Cache.Memory.{Array}
use hyrule.Cache.Order.{IsSorted}
use hyrule.Regions.Bubble.{is_positive, swap_next, bubble_up, bubble_out, sort}
use hyrule.Regions.Bubble.Rearranges.{
  Rearranges, done, swapped, Rearranges-trans, Rearranges-lift, swap_next-neighbour,
  Rearranges-behind, Rearranges-each, Rearranges-pairs,
}

-- The comparison passes its assertions, and is positive exactly if the second key is smaller.
abbrev pub Orders : Option ℤ → ℕ → ℕ → Type 0
Orders o x y = Returns o (λ c. is_positive c ≡ ltb y x)

module _ {A : Type 0} (comp : A → A → Option ℤ) (key : A → ℕ) where
  abbrev pub OrdersAll : Array A → ℕ → Type 0
  OrdersAll a num =
      (i j : ℕ) → i ≢ j → i < num → j < num → Orders (comp (a i) (a j)) (key (a i)) (key (a j))

  abbrev next : Array A → ℕ → ℤ → Array A
  next a i c = if is_positive c then swap_next a i else a

  -- The largest key so far stands at `i`.
  abbrev IsTop : Array A → ℕ → Type 0
  IsTop a i = (k : ℕ) → k ≤ i → key (a k) ≤ key (a i)

  Rearranges-next : (m i : ℕ) (a : Array A) (c : ℤ) → i + 1 < m → Rearranges m a (next a i c)
  Rearranges-next m i a c lt = elim (Bool-cases (is_positive c)) [
    | inl positive ↦ rw positive (swapped i lt done)
    | inr not_positive ↦ rw not_positive done
  ]

  next-IsTop :
      (i : ℕ) (a : Array A) (c : ℤ)
      → is_positive c ≡ ltb (key (a (i + 1))) (key (a i))
      → IsTop a i
      → IsTop (next a i c) (i + 1)
  next-IsTop i a c e top k le = elim (Bool-cases (is_positive c)) [
    | inl positive ↦
        rw (positive, swap_next-neighbour a i k, swap_next-neighbour a i (i + 1))
          (ground (arith, top k, top i, e, positive))
    | inr not_positive ↦ rw not_positive (elim (Bool-cases (k == i + 1)) [
      | inl same ↦ let z : k ≡ i + 1 = ground arith in rw z (omega arith)
      | inr other ↦ ground (arith, top k, e, not_positive)
    ])
  ]

  abbrev Tops : Array A → ℕ → Array A → Type 0
  Tops a idx_out b = Rearranges (idx_out + 1) a b × IsTop b idx_out

  bubble_up-Tops :
      (num n i idx_out : ℕ) (a : Array A)
      → i + n ≡ idx_out
      → idx_out < num
      → OrdersAll a num
      → IsTop a i
      → Returns (bubble_up comp n i a) (Tops a idx_out)
  unfolding bubble_up
  bubble_up-Tops num zero i idx_out a e lt orders top =
      let same : i ≡ idx_out = omega arith in (done, rw (← same) top)
  bubble_up-Tops num (suc n) i idx_out a e lt orders top =
      Returns-then (Tops a idx_out) (λ c. is_positive c ≡ ltb (key (a (i + 1))) (key (a i)))
        (comp (a i) (a (i + 1))) (λ c. bubble_up comp n (i + 1) (next a i c))
        (orders i (i + 1) (λ z. omega arith) (omega arith) (omega arith))
        (λ c agrees.
          let move = Rearranges-next (idx_out + 1) i a c (omega arith) in
          Returns-map {P = Tops (next a i c) idx_out} {Q = Tops a idx_out} _
            (bubble_up-Tops num n (i + 1) idx_out (next a i c) (omega arith) lt
              (Rearranges-pairs (λ x y. Orders (comp x y) (key x) (key y))
                (Rearranges-lift (omega arith) move) orders)
              (next-IsTop i a c agrees top))
            (λ b (moves, is_top). (Rearranges-trans move moves, is_top)))

  -- The elements behind `idx_out` are at their places.
  abbrev IsPlaced : Array A → ℕ → ℕ → Type 0
  IsPlaced a idx_out num = (i j : ℕ) → i ≤ j → j < num → idx_out < j → key (a i) ≤ key (a j)

  Tops-IsPlaced :
      (num m : ℕ) (a b : Array A) → IsPlaced a (suc m) num → Tops a (suc m) b → IsPlaced b m num
  Tops-IsPlaced num m a b placed (moves, top) i j le lt above = elim (Bool-cases (j == suc m)) [
    | inl same ↦ let e : j ≡ suc m = ground arith in rw e (top i (omega arith))
    | inr other ↦
        let far : suc m + 1 ≤ j = ground arith in
        rw (Rearranges-behind moves j far) (elim (Bool-cases (ltb i (suc m + 1))) [
          | inl near ↦
              Rearranges-each (λ x. key x ≤ key (a j)) moves
                (λ k below. placed k j (omega arith) lt (omega arith)) i (ground arith)
          | inr beyond ↦
              rw (Rearranges-behind moves i (ground arith)) (placed i j le lt (omega arith))
        ])
  ]

  -- A sorted rearrangement.
  abbrev pub Sorts : Array A → ℕ → Array A → Type 0
  Sorts a num b = Rearranges num a b × IsSorted key b num

  bubble_out-Sorts :
      (num idx_out : ℕ) (a : Array A)
      → idx_out < num
      → OrdersAll a num
      → IsPlaced a idx_out num
      → Returns (bubble_out comp idx_out a) (Sorts a num)
  unfolding bubble_out
  bubble_out-Sorts num zero a lt orders placed = (
    done,
    λ i j le below. elim (Bool-cases (j == 0)) [
      | inl first ↦
          let z : j ≡ 0 = ground arith in let z' : i ≡ 0 = omega arith in rw (z, z') (omega arith)
      | inr other ↦ placed i j le below (ground arith)
    ],
  )
  bubble_out-Sorts num (suc m) a lt orders placed =
      Returns-then (Sorts a num) (Tops a (suc m)) (bubble_up comp (suc m) 0 a) (bubble_out comp m)
        (bubble_up-Tops num (suc m) 0 (suc m) a (omega arith) lt orders
          (λ k le. let z : k ≡ 0 = omega arith in rw z (omega arith)))
        (λ b (moves, top).
          let move = Rearranges-lift (omega arith) moves in
          Returns-map {P = Sorts b num} {Q = Sorts a num} _
            (bubble_out-Sorts num m b (omega arith)
              (Rearranges-pairs (λ x y. Orders (comp x y) (key x) (key y)) move orders)
              (Tops-IsPlaced num m a b placed (moves, top)))
            (λ c (more, sorted). (Rearranges-trans move more, sorted)))

  -- With a comparison that passes its assertions on each two elements of the array, and is positive
  -- exactly if the second has the smaller key: the sort returns, without a failed assertion, the
  -- elements rearranged by swaps of neighbours and in ascending order of their keys.
  pub sort-Sorts :
      (a : Array A) (num : ℕ) → OrdersAll a num → Returns (sort comp a num) (Sorts a num)
  unfolding sort
  sort-Sorts a zero orders = (done, λ i j le lt. absurd (omega arith))
  sort-Sorts a (suc last) orders =
      bubble_out-Sorts (suc last) last a (omega arith) orders
        (λ i j le lt above. absurd (omega arith))
