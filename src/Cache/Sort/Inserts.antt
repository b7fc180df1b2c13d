-- ===== src/Cache/Sort/Inserts.antt =====
-- `INSERTION_SORT` returns, whatever the comparison says, and permutes the elements; where the
-- comparison is that of keys and all elements but the last are sorted, it sorts them all.
use hyrule.Prelude.{ℕ, suc, ◌-◌, ◌≤◌, ◌<◌, ◌≡◌, arith, Option, none, some}
use hyrule.Prelude.Int.{ℤ}
use hyrule.Cache.Memory.{Array}
use hyrule.Cache.Order.{Compares, IsSorted}
use hyrule.Prelude.Returns.{Returns}
use hyrule.Cache.Sort.{place, move_to, insertion_sort}
use hyrule.Cache.Sort.Shift.{source, move_to-at}
use hyrule.Cache.Sort.Place.{IsPlace, place-Returns, place-IsPlace}

module _ {A : Type 0} where
  -- The last of the elements has moved to a place, and those behind the place one further up.
  pub record Permutes (a : Array A) (last : ℕ) (b : Array A) : Type 0 where
    pub idx_move : ℕ
    pub inside : idx_move ≤ last
    pub stands : (i : ℕ) → b i ≡ a (source idx_move last i)

  pub record Inserts (key : A → ℕ) (a : Array A) (last : ℕ) (b : Array A) : Type 0 where
    pub permutes : Permutes a last b
    pub sorted : IsSorted key b (suc last)

  move_to-Permutes : (a : Array A) (last m : ℕ) → m ≤ last → Permutes a last (move_to m last a)
  move_to-Permutes a last m le = record {
    idx_move = m;
    inside = le;
    stands = λ i. move_to-at m last a i le;
  }

  move_to-Inserts :
      (comp : A → A → ℤ) (key : A → ℕ) (a : Array A) (last m : ℕ)
      → IsSorted key a last
      → IsPlace comp a (a last) key last m
      → Inserts key a last (move_to m last a)
  move_to-Inserts comp key a last m sorted p = record {
    permutes = move_to-Permutes a last m p.inside;
    sorted = λ i j le lt.
        rw (move_to-at m last a i p.inside, move_to-at m last a j p.inside)
          (ground
            (arith, sorted (source m last i) (source m last j), p.before i, p.behind (j - 1)));
  }

  -- The sort returns what the moves to the place leave.
  module _ (comp : A → A → ℤ) (a : Array A) (last : ℕ) (P : ℕ → Type 0) (Q : Array A → Type 0) where
    sort_after :
        (o : Option ℕ)
        → Returns o P
        → ((m : ℕ) → P m → Q (move_to m last a))
        → Returns (elim o [ none ↦ none | some m ↦ some (move_to m last a) ]) Q
    sort_after none r f = absurd r
    sort_after (some m) p f = f m p

  pub insertion_sort-Permutes :
      (comp : A → A → ℤ) (a : Array A) (last : ℕ)
      → Returns (insertion_sort comp a (suc last)) (Permutes a last)
  unfolding insertion_sort
  insertion_sort-Permutes comp a last =
      sort_after comp a last (λ m. m ≤ last) (Permutes a last) (place comp a (a last) last)
        (place-Returns comp a (a last) last) (move_to-Permutes a last)

  -- In an array of which all elements but the last are sorted by a key, with comparisons of the last
  -- with each of the others, both ways, that are those of their keys: the insertion sort returns
  -- with all elements sorted, and they are the old ones with the last one moved to its place and
  -- those behind the place one further up.
  pub insertion_sort-Inserts :
      (comp : A → A → ℤ) (key : A → ℕ) (a : Array A) (last : ℕ)
      → IsSorted key a last
      → ((i : ℕ) → i < last → Compares comp key (a last) (a i))
      → ((i : ℕ) → i < last → Compares comp key (a i) (a last))
      → Returns (insertion_sort comp a (suc last)) (Inserts key a last)
  unfolding insertion_sort
  insertion_sort-Inserts comp key a last sorted compares compared =
      sort_after comp a last (IsPlace comp a (a last) key last) (Inserts key a last)
        (place comp a (a last) last)
        (place-IsPlace comp a (a last) key last sorted compares compared)
        (λ m p. move_to-Inserts comp key a last m sorted p)
