-- ===== src/Cache/Add.antt =====
-- `add_translation_item` of sandbox/hart.c: when it refuses, and what it leaves when it does not.
pub mod Finds
pub mod Within
use hyrule.Prelude.{ℕ, zero, suc, ◌+◌, ◌-◌, ◌%◌, ◌^◌, ◌≤◌, ◌<◌, ◌≡◌, ◌≢◌, refl, sym, ap, ◌∙◌, arith}
use hyrule.Prelude.{Bool, true, false, Option, none, some, inl, inr, List, length, ◌==◌, get_or}
use hyrule.Prelude.{◌⊎◌}
use hyrule.Prelude.Int.{ℤ, pos, negsuc, ◌-ℤ◌}
use hyrule.Cache.{
  TranslationCache, MappingItem, Added, comparing_mapping_item, add_translation_item, put_item,
  with_mappings, unoccupied_cache_size, translation_cache_size, max_instructions_totranslate,
}
use hyrule.Cache.Memory.{Array, store, copy_in}
use hyrule.Cache.Order.{Compares, IsSorted}
use hyrule.Prelude.Returns.{Returns, Returns-map}
use hyrule.Cache.Sort.{insertion_sort}
use hyrule.Cache.Sort.Shift.{source, destination, source_below, destination_below}
use hyrule.Cache.Sort.Inserts.{Permutes, Inserts, insertion_sort-Permutes, insertion_sort-Inserts}
use hyrule.Cache.Invariant.{InWindow, IsCache, IsAbsent, window-Compares}

-- There is an item left, and room for the block and a jumper behind it.
abbrev pub Fits : ℕ → TranslationCache → ℕ → Type 0
Fits jumper c size =
    (c.nr_translated_instructions < max_instructions_totranslate)
    × (c.translation_cache_ptr + size + jumper ≤ translation_cache_size)

pub Fits-or-not :
    (jumper : ℕ) (c : TranslationCache) (size : ℕ) → Fits jumper c size ⊎ (¬ Fits jumper c size)
Fits-or-not jumper c size = ground arith

module _ (jumper : ℕ) (c : TranslationCache) (pc : ℕ) (block : List ℕ) where
  pub add_refused :
      ¬ Fits jumper c (length block)
      → 0 < length block
      → add_translation_item jumper c pc block ≡ some (record { returned = negsuc 0; cache = c })
  unfolding add_translation_item unoccupied_cache_size ◌-ℤ◌
  add_refused full nonempty = ground arith

  add_accepted :
      Fits jumper c (length block)
      → add_translation_item jumper c pc block
        ≡ with_mappings (put_item c pc block) (
            insertion_sort comparing_mapping_item
              (put_item c pc block).pc_mappings
              (suc c.nr_translated_instructions))
  unfolding add_translation_item unoccupied_cache_size ◌-ℤ◌ put_item
  add_accepted fits = ground arith

-- The cache that a call with result zero leaves: the items put in order, the block behind the others.
pub record IsAdded (c : TranslationCache) (pc : ℕ) (block : List ℕ) (r : Added) : Type 0 where
  pub returned_zero : r.returned ≡ pos 0
  pub counted : r.cache.nr_translated_instructions ≡ suc c.nr_translated_instructions
  pub moved : r.cache.translation_cache_ptr ≡ c.translation_cache_ptr + length block
  pub bytes : r.cache.translation_cache ≡ copy_in c.translation_cache c.translation_cache_ptr block
  pub permutes :
      Permutes (put_item c pc block).pc_mappings c.nr_translated_instructions r.cache.pc_mappings

module _ (jumper : ℕ) (c : TranslationCache) (pc : ℕ) (block : List ℕ) where
  added :
      (P : Array MappingItem → Type 0) (Q : Added → Type 0) (o : Option (Array MappingItem))
      → Returns o P
      → ((b : Array MappingItem)
          → P b
          → Q (record {
            returned = pos 0;
            cache = record (put_item c pc block) { pc_mappings = b };
          }))
      → Returns (with_mappings (put_item c pc block) o) Q
  added P Q none r f = absurd r
  added P Q (some b) r f = f b r

  -- Whatever the comparison says of the pcs.
  pub add-IsAdded :
      Fits jumper c (length block)
      → Returns (add_translation_item jumper c pc block) (IsAdded c pc block)
  unfolding put_item
  add-IsAdded fits = rw (add_accepted jumper c pc block fits) (
      added (Permutes (put_item c pc block).pc_mappings c.nr_translated_instructions)
        (IsAdded c pc block)
        (insertion_sort comparing_mapping_item (put_item c pc block).pc_mappings
          (suc c.nr_translated_instructions))
        (insertion_sort-Permutes comparing_mapping_item (put_item c pc block).pc_mappings
          c.nr_translated_instructions)
        (λ b p. record {
          returned_zero = refl;
          counted = omega arith;
          moved = refl;
          bytes = refl;
          permutes = p;
        }))

  module _ (base : ℕ) (ok : IsCache base c) (in_window : InWindow base pc) where
    abbrev last : ℕ
    last = c.nr_translated_instructions

    abbrev put : Array MappingItem
    put = (put_item c pc block).pc_mappings

    -- The items with the new one behind them.
    new_item_behind : put last ≡ record { guest_pc = pc; tc_offset = c.translation_cache_ptr }
    unfolding put_item store
    new_item_behind = ground arith

    put_before : (j : ℕ) → j < last → put j ≡ c.pc_mappings j
    unfolding put_item store
    put_before j lt = ground arith

    put_window : (j : ℕ) → j ≤ last → InWindow base (put j).guest_pc
    unfolding put_item store
    put_window j le = ground (arith, ok.near j, in_window)

    put-IsSorted : IsSorted (λ item. item.guest_pc) put last
    put-IsSorted i j le lt = rw (put_before i (omega arith), put_before j lt) (ok.sorted i j le lt)

    put_distinct :
        IsAbsent c pc
        → (i j : ℕ) → i ≤ last
        → j ≤ last
        → (put i).guest_pc ≡ (put j).guest_pc
        → i ≡ j
    unfolding put_item store
    put_distinct absent i j li lj = ground (arith, ok.distinct i j, absent i, absent j)

    put_absent : (q : ℕ) → q ≢ pc → IsAbsent c q → (j : ℕ) → j ≤ last → (put j).guest_pc ≢ q
    unfolding put_item store
    put_absent q ne none_before j le e = ground (arith, none_before j)

    -- The sort puts them in order.
    pub add-sorted :
        Fits jumper c (length block)
        → Returns (add_translation_item jumper c pc block) (λ r.
          IsAdded c pc block r × Inserts (λ item. item.guest_pc) put last r.cache.pc_mappings)
    unfolding put_item
    add-sorted fits = rw (add_accepted jumper c pc block fits) (
        added (Inserts (λ item. item.guest_pc) put last)
          (λ r. IsAdded c pc block r × Inserts (λ item. item.guest_pc) put last r.cache.pc_mappings)
          (insertion_sort comparing_mapping_item put (suc last))
          (insertion_sort-Inserts comparing_mapping_item (λ item. item.guest_pc) put last
            put-IsSorted
            (λ i lt.
              window-Compares base (put last) (put i) (put_window last (omega arith))
                (put_window i (omega arith)))
            (λ i lt.
              window-Compares base (put i) (put last) (put_window i (omega arith))
                (put_window last (omega arith))))
          (λ b p. (
            record {
              returned_zero = refl;
              counted = omega arith;
              moved = refl;
              bytes = refl;
              permutes = p.permutes;
            },
            p,
          )))
