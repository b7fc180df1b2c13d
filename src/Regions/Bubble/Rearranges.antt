-- ===== src/Regions/Bubble/Rearranges.antt =====
-- What a row of swaps of neighbours, as `SORT` of sandbox/sort.h makes them, leaves of an array.
use hyrule.Prelude.{ℕ, ◌+◌, ◌≤◌, ◌<◌, ◌≡◌, refl, ◌≢◌, arith, ◌==◌, if◌then◌else◌}
use hyrule.Cache.Memory.{Array, store}
use hyrule.Regions.Bubble.{swap_next}

-- Where the element at `i` stood before the swap.
abbrev pub neighbour : ℕ → ℕ → ℕ
neighbour k i = if i == k + 1 then k else (if i == k then k + 1 else i)

module _ {A : Type 0} where
  -- The second array comes of the first by swaps of neighbours, all of them below `num`.
  pub data Rearranges (num : ℕ) : Array A → Array A → Type 0 where
    done : {a : Array A} → Rearranges num a a
    swapped :
        {a b : Array A} (k : ℕ)
        → k + 1 < num
        → Rearranges num (swap_next a k) b
        → Rearranges num a b

  pub Rearranges-trans :
      {num : ℕ} {a b c : Array A} → Rearranges num a b → Rearranges num b c → Rearranges num a c
  Rearranges-trans done r = r
  Rearranges-trans (swapped k lt s) r = swapped k lt (Rearranges-trans s r)

  pub Rearranges-lift :
      {m num : ℕ} {a b : Array A} → m ≤ num → Rearranges m a b → Rearranges num a b
  Rearranges-lift le done = done
  Rearranges-lift le (swapped k lt s) = swapped k (omega arith) (Rearranges-lift le s)

  -- A property that each swap keeps.
  pub Rearranges-keeps :
      {num : ℕ} {a b : Array A} (P : Array A → Type 0)
      → ((a : Array A) (k : ℕ) → k + 1 < num → P a → P (swap_next a k))
      → Rearranges num a b
      → P a
      → P b
  Rearranges-keeps P keep done p = p
  Rearranges-keeps {a = a} P keep (swapped k lt s) p = Rearranges-keeps P keep s (keep a k lt p)

  pub swap_next-neighbour : (a : Array A) (k i : ℕ) → swap_next a k i ≡ a (neighbour k i)
  unfolding swap_next store
  swap_next-neighbour a k i = ground arith

  -- Behind the part that is rearranged nothing changes.
  pub Rearranges-behind :
      {num : ℕ} {a b : Array A} → Rearranges num a b → (i : ℕ) → num ≤ i → b i ≡ a i
  Rearranges-behind {num = num} {a = a} s i le =
      Rearranges-keeps {num = num} (λ b. b i ≡ a i)
        (λ b k lt e. rw (swap_next-neighbour b k i) (ground (arith, e))) s refl

  -- What holds of each element holds of each afterwards.
  pub Rearranges-each :
      {num : ℕ} {a b : Array A} (P : A → Type 0)
      → Rearranges num a b
      → ((i : ℕ) → i < num → P (a i))
      → (i : ℕ) → i < num
      → P (b i)
  Rearranges-each {num = num} P s p =
      Rearranges-keeps (λ b. (i : ℕ) → i < num → P (b i))
        (λ b k lt h i inside. rw (swap_next-neighbour b k i) (h (neighbour k i) (ground arith))) s p

  -- What holds of each two elements holds of each two afterwards.
  pub Rearranges-pairs :
      {num : ℕ} {a b : Array A} (P : A → A → Type 0)
      → Rearranges num a b
      → ((i j : ℕ) → i ≢ j → i < num → j < num → P (a i) (a j))
      → (i j : ℕ) → i ≢ j
      → i < num
      → j < num
      → P (b i) (b j)
  Rearranges-pairs {num = num} P s p =
      Rearranges-keeps (λ b. (i j : ℕ) → i ≢ j → i < num → j < num → P (b i) (b j))
        (λ b k lt h i j differ low high.
          rw (swap_next-neighbour b k i, swap_next-neighbour b k j)
            (h (neighbour k i) (neighbour k j) (λ e. ground arith) (ground arith) (ground arith)))
        s p

  -- What some element has, some element has afterwards.
  pub Rearranges-some :
      {num : ℕ} {a b : Array A} (P : A → Type 0)
      → Rearranges num a b
      → ((i : ℕ) × (i < num) × P (a i))
      → (i : ℕ) × (i < num) × P (b i)
  Rearranges-some {num = num} P s p =
      Rearranges-keeps (λ b. (i : ℕ) × (i < num) × P (b i))
        (λ b k lt (i, below, h).
          let back : neighbour k (neighbour k i) ≡ i = ground arith in
          (neighbour k i, ground arith, rw (swap_next-neighbour b k (neighbour k i), back) h))
        s p
