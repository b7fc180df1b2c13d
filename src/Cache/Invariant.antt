-- ===== src/Cache/Invariant.antt =====
-- What holds of a translation cache between two operations, and what an item found means.
use hyrule.Prelude.{ℕ, ◌+◌, ◌^◌, ◌≤◌, ◌<◌, ◌≡◌, ◌≢◌, refl, sym, ap, ◌∙◌, arith}
use hyrule.Prelude.{Option, none, some, inl, inr, ◌⊎◌}
use hyrule.Cache.{
  TranslationCache, MappingItem, comparing_mapping_item, search_translation_item,
  flush_translation_cache, translation_cache_size, max_instructions_totranslate,
}
use hyrule.Cache.Order.{Compares, IsSorted}
use hyrule.Prelude.Returns.{Returns}
use hyrule.Cache.Search.Finds.{Finds, search-Finds}
use hyrule.Cache.Item.{comparing_mapping_item-Compares}

-- The pcs of a window of 2^31 bytes, the distance at which `comparing_mapping_item` is an order.
abbrev pub InWindow : ℕ → ℕ → Type 0
InWindow base pc = (base ≤ pc) × (pc < base + 2 ^ 31) × (pc < 2 ^ 32)

pub window-Compares :
    (base : ℕ) (a b : MappingItem)
    → InWindow base a.guest_pc
    → InWindow base b.guest_pc
    → Compares comparing_mapping_item (λ item. item.guest_pc) a b
window-Compares base a b (ga, la, fa) (gb, lb, fb) =
    (comparing_mapping_item-Compares a b fa fb).1 (omega arith, omega arith)

-- The items are sorted, each pc has one, all lie in the window, and the sizes are in their bounds.
pub record IsCache (base : ℕ) (c : TranslationCache) : Type 0 where
  pub count : c.nr_translated_instructions ≤ max_instructions_totranslate
  pub sorted : IsSorted (λ item. item.guest_pc) c.pc_mappings c.nr_translated_instructions
  pub distinct :
      (i j : ℕ)
      → i < c.nr_translated_instructions
      → j < c.nr_translated_instructions
      → (c.pc_mappings i).guest_pc ≡ (c.pc_mappings j).guest_pc
      → i ≡ j
  pub near : (i : ℕ) → i < c.nr_translated_instructions → InWindow base (c.pc_mappings i).guest_pc
  pub room : c.translation_cache_ptr ≤ translation_cache_size

pub flush-IsCache : (base : ℕ) (c : TranslationCache) → IsCache base (flush_translation_cache c)
flush-IsCache base c = record {
  count = omega arith;
  sorted = λ i j le lt. absurd (omega arith);
  distinct = λ i j li lj e. absurd (omega arith);
  near = λ i lt. absurd (omega arith);
  room = omega arith;
}

abbrev pub item_at : TranslationCache → Option (Option ℕ) → Option (Option MappingItem)
item_at c none = none
item_at c (some none) = some none
item_at c (some (some i)) = some (some (c.pc_mappings i))

-- The item that the search's pointer points to.
abbrev pub item_found : TranslationCache → ℕ → Option (Option MappingItem)
item_found c pc = item_at c (search_translation_item c pc)

-- What `SEARCH` says of the items.
abbrev pub FindsItem : TranslationCache → ℕ → Option ℕ → Type 0
FindsItem c pc =
    Finds c.pc_mappings (record { guest_pc = pc; tc_offset = 0 }) (λ item. item.guest_pc)
      c.nr_translated_instructions

abbrev pub IsAbsent : TranslationCache → ℕ → Type 0
IsAbsent c pc = (i : ℕ) → i < c.nr_translated_instructions → (c.pc_mappings i).guest_pc ≢ pc

module _ (base : ℕ) (c : TranslationCache) (ok : IsCache base c) (pc : ℕ)
    (in_window : InWindow base pc) where
  abbrev key_item : MappingItem
  key_item = record { guest_pc = pc; tc_offset = 0 }

  pub search-Finds_item : Returns (search_translation_item c pc) (FindsItem c pc)
  unfolding search_translation_item
  search-Finds_item =
      search-Finds comparing_mapping_item c.pc_mappings key_item (λ item. item.guest_pc)
        c.nr_translated_instructions ok.sorted
        (λ i lt. window-Compares base key_item (c.pc_mappings i) in_window (ok.near i lt))

  -- The one item with this pc is found.
  pub item_found-present :
      (i : ℕ)
      → i < c.nr_translated_instructions
      → (c.pc_mappings i).guest_pc ≡ pc
      → item_found c pc ≡ some (some (c.pc_mappings i))
  item_found-present i lt e = only (search_translation_item c pc) search-Finds_item
    where
      only :
          (o : Option (Option ℕ))
          → Returns o (FindsItem c pc)
          → item_at c o ≡ some (some (c.pc_mappings i))
      only none r = absurd r
      only (some none) r = absurd (r i lt e)
      only (some (some j)) (below, same) =
          ap (λ k. some (some (c.pc_mappings k))) (ok.distinct j i below lt (same ∙ sym e))

  pub item_found-absent : IsAbsent c pc → item_found c pc ≡ some none
  item_found-absent absent = nothing (search_translation_item c pc) search-Finds_item
    where
      nothing : (o : Option (Option ℕ)) → Returns o (FindsItem c pc) → item_at c o ≡ some none
      nothing none r = absurd r
      nothing (some none) r = refl
      nothing (some (some j)) (below, same) = absurd (absent j below same)

  -- The search decides.
  pub IsAbsent-or_present :
      IsAbsent c pc
      ⊎ ((i : ℕ) × (i < c.nr_translated_instructions) × ((c.pc_mappings i).guest_pc ≡ pc))
  IsAbsent-or_present = decide (search_translation_item c pc) search-Finds_item
    where
      decide :
          (o : Option (Option ℕ))
          → Returns o (FindsItem c pc)
          → IsAbsent c pc
            ⊎ ((i : ℕ) × (i < c.nr_translated_instructions) × ((c.pc_mappings i).guest_pc ≡ pc))
      decide none r = absurd r
      decide (some none) r = inl r
      decide (some (some j)) (below, same) = inr (j, below, same)
