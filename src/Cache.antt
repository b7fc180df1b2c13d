-- ===== src/Cache.antt =====
-- sandbox/hart.c and hart.h: a hart's translation cache, the blocks one behind the other and the items
-- that map a guest pc to its block, sorted by their pcs.
pub mod Memory
pub mod Order
pub mod Window
pub mod Search
pub mod Sort
pub mod Item
pub mod Invariant
pub mod Add
pub mod Commit
pub mod Prefetch
mod Tests
use hyrule.Prelude.{
  ℕ, zero, suc, ◌+◌, ◌-◌, ◌*◌, ◌%◌, ◌^◌, Bool, true, false, Option, none, some, List,
}
use hyrule.Prelude.{length, ltb, leb, if◌then◌else◌}
use hyrule.Prelude.Int.{ℤ, pos, negsuc, ◌-ℤ◌, ltb_ℤ}
use hyrule.Word.{signed32}
use hyrule.Cache.Memory.{Array, store, copy_in}
use hyrule.Cache.Search.{search}
use hyrule.Cache.Sort.{insertion_sort}

abbrev pub translation_cache_size : ℕ
translation_cache_size = 1024 * 64

abbrev pub max_instructions_totranslate : ℕ
max_instructions_totranslate = 512

-- `struct program_counter_mapping_item`.
pub record MappingItem : Type 0 where
  pub guest_pc : ℕ
  pub tc_offset : ℕ

-- The fields of `struct hart` that belong to the cache.
pub record TranslationCache : Type 0 where
  pub nr_translated_instructions : ℕ
  pub pc_mappings : Array MappingItem
  pub translation_cache : Array ℕ
  pub translation_cache_ptr : ℕ

abbrev pub flush_translation_cache : TranslationCache → TranslationCache
flush_translation_cache c = record c { nr_translated_instructions = 0; translation_cache_ptr = 0 }

-- `(int)(a->guest_pc - b->guest_pc)`, the difference of two `uint32_t`.
unfoldable pub comparing_mapping_item : MappingItem → MappingItem → ℤ
comparing_mapping_item a b = signed32 ((a.guest_pc + 2 ^ 32 - b.guest_pc) % 2 ^ 32)

-- `jumper` is the size of the code between `vmm_jumper_begin` and `vmm_jumper_end`.
unfoldable pub unoccupied_cache_size : ℕ → TranslationCache → ℤ
unoccupied_cache_size jumper c =
    if ltb c.nr_translated_instructions max_instructions_totranslate
    then pos translation_cache_size -ℤ pos c.translation_cache_ptr -ℤ pos jumper
    else pos 0

-- The block behind the others, and its item behind the items.
unfoldable pub put_item : TranslationCache → ℕ → List ℕ → TranslationCache
put_item c guest_instruction_address block = record {
  nr_translated_instructions = c.nr_translated_instructions + 1;
  pc_mappings =
      store c.pc_mappings c.nr_translated_instructions
        (record { guest_pc = guest_instruction_address; tc_offset = c.translation_cache_ptr });
  translation_cache = copy_in c.translation_cache c.translation_cache_ptr block;
  translation_cache_ptr = c.translation_cache_ptr + length block;
}

-- What `add_translation_item` returns, with the cache that it leaves.
pub record Added : Type 0 where
  pub returned : ℤ
  pub cache : TranslationCache

abbrev pub with_mappings : TranslationCache → Option (Array MappingItem) → Option Added
with_mappings c none = none
with_mappings c (some mappings) =
    some (record { returned = pos 0; cache = record c { pc_mappings = mappings } })

-- `none` if the sort runs out of fuel.
unfoldable pub add_translation_item : ℕ → TranslationCache → ℕ → List ℕ → Option Added
add_translation_item jumper c guest_instruction_address block =
    if ltb_ℤ (unoccupied_cache_size jumper c) (pos (length block))
    then some (record { returned = negsuc 0; cache = c })
    else (if leb max_instructions_totranslate c.nr_translated_instructions
        then some (record { returned = negsuc 1; cache = c })
        else (let put = put_item c guest_instruction_address block in
            with_mappings put (
              insertion_sort comparing_mapping_item put.pc_mappings
                put.nr_translated_instructions)))

-- The item with this pc, by its index; the outer `none` if the search runs out of fuel.
unfoldable pub search_translation_item : TranslationCache → ℕ → Option (Option ℕ)
search_translation_item c guest_instruction_address =
    search comparing_mapping_item c.pc_mappings
      (record { guest_pc = guest_instruction_address; tc_offset = 0 }) c.nr_translated_instructions
