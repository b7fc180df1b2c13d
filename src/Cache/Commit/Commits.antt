-- ===== src/Cache/Commit/Commits.antt =====
-- A block that was checked for room is committed with no assertion failing, and stands in the cache with
-- its parameters.
use hyrule.Prelude.{ℕ, suc, ◌+◌, ◌-◌, ◌*◌, ◌^◌, ◌≤◌, ◌<◌, ◌≡◌, refl, ◌∙◌}
use hyrule.Prelude.{arith, Option, none, some, List, length}
use hyrule.Prelude.{◌==◌, ==_iff, get_or, some-injective, if◌then◌else◌}
use hyrule.Cache.{
  TranslationCache, MappingItem, Added, add_translation_item, search_translation_item,
}
use hyrule.Cache.Memory.{Array}
use hyrule.Prelude.Returns.{Returns, Returns-map, Returns-both}
use hyrule.Cache.Invariant.{InWindow, IsCache, IsAbsent, item_at, item_found}
use hyrule.Cache.Add.{Fits, add-IsAdded}
use hyrule.Cache.Add.Finds.{Lookups, add_translation_item-Lookups, add_translation_item-IsCache}
use hyrule.Cache.Commit.{write_params, write_item, write_found, commit_added, commit_translation}
use hyrule.Cache.Commit.Params.{word_at, write_params-before, write_params-word}

-- The block and its item after `COMMIT_TRANSLATION`: its code, and behind the code its parameters.
pub record Commits (base : ℕ) (c : TranslationCache) (pc : ℕ) (block params : List ℕ)
    (after : TranslationCache) : Type 0 where
  pub still : IsCache base after
  pub counted : after.nr_translated_instructions ≡ suc c.nr_translated_instructions
  pub moved : after.translation_cache_ptr ≡ c.translation_cache_ptr + length block
  pub lookup :
      (q : ℕ)
      → InWindow base q
      → item_found after q ≡ (
          if q == pc
          then some (some (record { guest_pc = pc; tc_offset = c.translation_cache_ptr }))
          else item_found c q)
  pub code_there :
      (i : ℕ)
      → i + 4 * length params < length block
      → after.translation_cache (c.translation_cache_ptr + i) ≡ get_or block i 0
  pub params_there :
      (j : ℕ)
      → j < length params
      → word_at after.translation_cache
          (c.translation_cache_ptr + length block - 4 * length params + 4 * j)
        ≡ get_or params j 0
  pub blocks_before :
      (i : ℕ) → i < c.translation_cache_ptr → after.translation_cache i ≡ c.translation_cache i

-- The bytes may change; the items are what is searched.
item_found_in :
    (c : TranslationCache) (bytes : Array ℕ) (q : ℕ)
    → item_found (record c { translation_cache = bytes }) q ≡ item_found c q
unfolding search_translation_item
item_found_in c bytes q = refl

module _ (base : ℕ) (c : TranslationCache) (pc : ℕ) (block params : List ℕ)
    (words : (k : ℕ) → get_or params k 0 < 2 ^ 32) (fit : 4 * length params ≤ length block) where
  abbrev NewItem : MappingItem → Type 0
  NewItem item = item ≡ record { guest_pc = pc; tc_offset = c.translation_cache_ptr }

  -- What is left of an addition.
  record Left (r : Added) : Type 0 where
    still : IsCache base r.cache
    counted : r.cache.nr_translated_instructions ≡ suc c.nr_translated_instructions
    moved : r.cache.translation_cache_ptr ≡ c.translation_cache_ptr + length block
    lookups : Lookups base c pc block r

  written :
      (r : Added) (item : MappingItem)
      → Left r
      → NewItem item
      → Returns (write_item r.cache pc (length block) params item) (Commits base c pc block params)
  unfolding write_item
  written r item left e =
      let start = c.translation_cache_ptr + length block - 4 * length params in
      rw (e, (==_iff pc pc).1 refl)
        (record {
          still = record {
            count = left.still.count;
            sorted = left.still.sorted;
            distinct = left.still.distinct;
            near = left.still.near;
            room = left.still.room;
          };
          counted = left.counted;
          moved = left.moved;
          lookup = λ q in_window.
              item_found_in r.cache (write_params r.cache.translation_cache start params) q
              ∙ left.lookups.lookup q in_window;
          code_there = λ i lt.
              write_params-before params r.cache.translation_cache start
                (c.translation_cache_ptr + i) (omega arith)
              ∙ left.lookups.block_there i (omega arith);
          params_there =
              λ j lt. write_params-word params r.cache.translation_cache start j words lt;
          blocks_before = λ i lt.
              write_params-before params r.cache.translation_cache start i (omega arith)
              ∙ left.lookups.blocks_before i lt;
        })

  written_found :
      (r : Added) (o : Option (Option ℕ))
      → Left r
      → item_at r.cache o
        ≡ some (some (record { guest_pc = pc; tc_offset = c.translation_cache_ptr }))
      → Returns (write_found r.cache pc (length block) params o) (Commits base c pc block params)
  written_found r none left e = ground arith
  written_found r (some none) left e = ground arith
  written_found r (some (some i)) left e = written r (r.cache.pc_mappings i) left (
      some-injective (r.cache.pc_mappings i)
        (record { guest_pc = pc; tc_offset = c.translation_cache_ptr })
        (some-injective (some (r.cache.pc_mappings i))
          (some (record { guest_pc = pc; tc_offset = c.translation_cache_ptr })) e))

  committed :
      (o : Option Added)
      → InWindow base pc
      → Returns o Left
      → Returns (commit_added pc (length block) params o) (Commits base c pc block params)
  committed none in_window r = absurd r
  committed (some r) in_window left = rw left.lookups.returned_zero (
      written_found r (search_translation_item r.cache pc) left
        (left.lookups.lookup pc in_window ∙ rw ((==_iff pc pc).1 refl) refl))

  -- In a cache whose items are sorted by their pcs, with one item for each pc, all pcs within one
  -- window of 2^31 bytes, and with the sizes in their bounds, for a pc of the window that has no
  -- item yet, a block of at least one byte for which there is room and which is as long as its
  -- parameters of 32 bits at least: no assertion of the commit fails, the cache that it leaves has
  -- such items again, one more, and the block behind the others; the search by any pc of the window
  -- finds the new item for the committed pc and else what it found before, the block's code stands
  -- at the new item's offset, each parameter as a little-endian word at the end of the block, and
  -- the bytes before the block are unchanged.
  pub commit_translation-Commits :
      (jumper : ℕ)
      → IsCache base c
      → InWindow base pc
      → IsAbsent c pc
      → 0 < length block
      → Fits jumper c (length block)
      → Returns (commit_translation jumper c pc block params) (Commits base c pc block params)
  unfolding commit_translation
  commit_translation-Commits jumper ok in_window absent nonempty fits =
      let o = add_translation_item jumper c pc block in
      committed o in_window (
        Returns-map o
          (Returns-both _ _ o (add-IsAdded jumper c pc block fits) (
            Returns-both _ _ o
              (add_translation_item-IsCache base jumper c pc block ok in_window absent nonempty)
              (add_translation_item-Lookups base jumper c pc block ok in_window absent fits)))
          (λ r (a, (still, lookups)). record {
            still = still;
            counted = a.counted;
            moved = a.moved;
            lookups = lookups;
          }))
