-- ===== src/Cache/Add/Within.antt =====
-- What `add_translation_item` never touches, whatever the comparison says of the pcs, and the calls that
-- it refuses.
use hyrule.Prelude.{ℕ, ◌+◌, ◌≤◌, ◌<◌, ◌≡◌, refl, ap, ◌∙◌, arith}
use hyrule.Prelude.{inl, inr, List, length}
use hyrule.Prelude.Int.{pos, negsuc}
use hyrule.Cache.{TranslationCache, Added, add_translation_item, put_item}
use hyrule.Cache.{translation_cache_size, max_instructions_totranslate}
use hyrule.Cache.Memory.{store, copy_in_behind, copy_in_before}
use hyrule.Prelude.Returns.{Returns, Returns-map}
use hyrule.Cache.Add.{Fits, Fits-or-not, IsAdded, add_refused, add-IsAdded}

-- Nothing behind the array of items, nothing in the room of the jumper or behind the cache, and no byte
-- of an earlier block.
pub record Within (jumper : ℕ) (c : TranslationCache) (r : Added) : Type 0 where
  pub items : (i : ℕ) → max_instructions_totranslate ≤ i → r.cache.pc_mappings i ≡ c.pc_mappings i
  pub bytes :
      (i : ℕ)
      → translation_cache_size ≤ i + jumper
      → r.cache.translation_cache i ≡ c.translation_cache i
  pub blocks :
      (i : ℕ) → i < c.translation_cache_ptr → r.cache.translation_cache i ≡ c.translation_cache i
  pub count : r.cache.nr_translated_instructions ≤ max_instructions_totranslate
  pub room : r.cache.translation_cache_ptr + jumper ≤ translation_cache_size

module _ (jumper : ℕ) (c : TranslationCache) (pc : ℕ) (block : List ℕ) where
  item_behind :
      (i : ℕ)
      → c.nr_translated_instructions < i
      → (put_item c pc block).pc_mappings i ≡ c.pc_mappings i
  unfolding put_item store
  item_behind i lt = ground arith

  added-Within :
      Fits jumper c (length block) → (r : Added) → IsAdded c pc block r → Within jumper c r
  added-Within fits r a = record {
    items = λ i le.
        a.permutes.stands i
        ∙ ap (put_item c pc block).pc_mappings (ground (arith, a.permutes.inside))
        ∙ item_behind i (omega arith);
    bytes = λ i le.
        rw a.bytes
          (copy_in_behind c.translation_cache c.translation_cache_ptr i block (omega arith));
    blocks =
        λ i lt. rw a.bytes (copy_in_before c.translation_cache c.translation_cache_ptr i block lt);
    count = omega (arith, a.counted);
    room = omega (arith, a.moved);
  }

  -- Whatever the items are and however their pcs compare: in a cache with at most 512 items and room
  -- for a jumper, adding a block of at least one byte returns, and changes no item behind the 512,
  -- no byte of the last ones that the jumper may need, no byte behind the cache and none of an
  -- earlier block, and the cache left has at most 512 items and room for a jumper.
  pub add_translation_item-Within :
      c.nr_translated_instructions ≤ max_instructions_totranslate
      → c.translation_cache_ptr + jumper ≤ translation_cache_size
      → 0 < length block
      → Returns (add_translation_item jumper c pc block) (Within jumper c)
  add_translation_item-Within count room nonempty = elim (Fits-or-not jumper c (length block)) [
    | inl fits ↦
        Returns-map (add_translation_item jumper c pc block) (add-IsAdded jumper c pc block fits)
          (added-Within fits)
    | inr full ↦ rw (add_refused jumper c pc block full nonempty) (record {
      items = λ i le. refl;
      bytes = λ i le. refl;
      blocks = λ i lt. refl;
      count = count;
      room = room;
    })
  ]

  -- What the caller reads off the result.
  abbrev pub Reports : Added → Type 0
  Reports r =
      (Fits jumper c (length block) → r.returned ≡ pos 0)
      × (¬ Fits jumper c (length block) → (r.returned ≡ negsuc 0) × (r.cache ≡ c))

  -- For a block of at least one byte, adding returns in every cache: the result is zero where fewer
  -- than 512 items are in use and the block fits together with a jumper, and otherwise it is -1,
  -- with the cache unchanged.
  pub add_translation_item-Reports :
      0 < length block → Returns (add_translation_item jumper c pc block) Reports
  add_translation_item-Reports nonempty = elim (Fits-or-not jumper c (length block)) [
    | inl fits ↦
        Returns-map (add_translation_item jumper c pc block) (add-IsAdded jumper c pc block fits)
          (λ r a. (λ _. a.returned_zero, λ full. absurd (full fits)))
    | inr full ↦
        rw (add_refused jumper c pc block full nonempty)
          (λ fits. absurd (full fits), λ _. (refl, refl))
  ]
