-- ===== src/Cache/Tests.antt =====
-- The theorems on the translation cache at concrete caches, and runs of the loops.
use hyrule.Prelude.{ℕ, zero, suc, ◌^◌, ◌<◌, ◌≡◌, ◌↔◌, refl, arith, true, false}
use hyrule.Prelude.{none, some, [], ◌∷◌, get_or, some-injective}
use hyrule.Cache.{
  TranslationCache, MappingItem, comparing_mapping_item, add_translation_item,
  search_translation_item,
}
use hyrule.Cache.Memory.{Array}
use hyrule.Cache.Order.{IsSorted}
use hyrule.Prelude.Returns.{Returns}
use hyrule.Cache.Window.{window_loop}
use hyrule.Cache.Search.{search, search_round}
use hyrule.Cache.Item.{IsNear, ComparesItems, comparing_mapping_item-Compares}
use hyrule.Cache.Invariant.{InWindow, IsCache, IsAbsent}
use hyrule.Cache.Add.Finds.{Lookups, add_translation_item-Lookups, add_translation_item-IsCache}
use hyrule.Cache.Add.Within.{Within, add_translation_item-Within}
use hyrule.Cache.Commit.{PrefetchBlob, commit_translation, precheck_translation_cache}
use hyrule.Cache.Commit.Commits.{Commits, commit_translation-Commits}
use hyrule.Cache.Commit.Room.{Prechecks, precheck-Prechecks}
use hyrule.Cache.Prefetch.{prefetch_to_cache}
use hyrule.Cache.Prefetch.Ends.{IsReady}
use hyrule.Prelude.{replicate, sym, ap, ◌∙◌, List, Option, length}
use hyrule.Cache.Prefetch.Table.{table_translators, Assembles, table-IsReady}
use hyrule.Translate.Block.{Block}
use hyrule.Translate.Dispatch.{OtherTranslators, translate, translate_as}
use hyrule.Translate.Immediate.{riscv_immediate_entry, riscv_addi_translator}
use hyrule.Translate.Decode.{instruction_decoding_per_type}

abbrev two_items : Array MappingItem
two_items zero = record { guest_pc = 100; tc_offset = 0 }
two_items (suc zero) = record { guest_pc = 108; tc_offset = 3 }
two_items (suc (suc i)) = record { guest_pc = 104; tc_offset = 6 }

abbrev two_blocks : TranslationCache
two_blocks = record {
  nr_translated_instructions = 2;
  pc_mappings = two_items;
  translation_cache = λ i. 0;
  translation_cache_ptr = 6;
}

two_items-IsSorted : IsSorted (λ item. item.guest_pc) two_items 2
two_items-IsSorted zero zero le lt = omega arith
two_items-IsSorted zero (suc zero) le lt = omega arith
two_items-IsSorted (suc zero) (suc zero) le lt = omega arith
two_items-IsSorted (suc (suc i)) j le lt = absurd (omega arith)
two_items-IsSorted (suc i) zero le lt = absurd (omega arith)
two_items-IsSorted i (suc (suc j)) le lt = absurd (omega arith)

two_items_distinct :
    (i j : ℕ) → i < 2 → j < 2 → (two_items i).guest_pc ≡ (two_items j).guest_pc → i ≡ j
two_items_distinct zero zero li lj e = refl
two_items_distinct zero (suc zero) li lj e = absurd (omega arith)
two_items_distinct (suc zero) zero li lj e = absurd (omega arith)
two_items_distinct (suc zero) (suc zero) li lj e = refl
two_items_distinct (suc (suc i)) j li lj e = absurd (omega arith)
two_items_distinct i (suc (suc j)) li lj e = absurd (omega arith)

two_items_near : (i : ℕ) → InWindow 0 (two_items i).guest_pc
two_items_near zero = (omega arith, omega arith, omega arith)
two_items_near (suc zero) = (omega arith, omega arith, omega arith)
two_items_near (suc (suc i)) = (omega arith, omega arith, omega arith)

two_blocks-IsCache : IsCache 0 two_blocks
two_blocks-IsCache = record {
  count = omega arith;
  sorted = two_items-IsSorted;
  distinct = two_items_distinct;
  near = λ i lt. two_items_near i;
  room = omega arith;
}

two_blocks-IsAbsent : IsAbsent two_blocks 104
two_blocks-IsAbsent zero lt e = absurd (omega arith)
two_blocks-IsAbsent (suc zero) lt e = absurd (omega arith)
two_blocks-IsAbsent (suc (suc i)) lt e = absurd (omega arith)

abbrev window_104 : InWindow 0 104
window_104 = (omega arith, omega arith, omega arith)

abbrev item_104 : MappingItem
item_104 = record { guest_pc = 104; tc_offset = 6 }

-- Runs: an item is found by its pc, and no other.
search_runs :
    (search_translation_item two_blocks 108 ≡ some (some 1))
    × (search_translation_item two_blocks 104 ≡ some none)
unfolding search_translation_item search window_loop search_round comparing_mapping_item
search_runs = (refl, refl)

comparing_mapping_item-Compares_example : ComparesItems item_104 (two_items 0) ↔ IsNear 104 100
comparing_mapping_item-Compares_example =
    comparing_mapping_item-Compares item_104 (two_items 0) (omega arith) (omega arith)

add_translation_item-Lookups_example :
    Returns
      (add_translation_item 4 two_blocks 104 (7 ∷ 8 ∷ []))
      (Lookups 0 two_blocks 104 (7 ∷ 8 ∷ []))
add_translation_item-Lookups_example =
    add_translation_item-Lookups 0 4 two_blocks 104 (7 ∷ 8 ∷ []) two_blocks-IsCache window_104
      two_blocks-IsAbsent (omega arith, omega arith)

add_translation_item-IsCache_example :
    Returns (add_translation_item 4 two_blocks 104 (7 ∷ 8 ∷ [])) (λ r. IsCache 0 r.cache)
add_translation_item-IsCache_example =
    add_translation_item-IsCache 0 4 two_blocks 104 (7 ∷ 8 ∷ []) two_blocks-IsCache window_104
      two_blocks-IsAbsent (omega arith)

add_translation_item-Within_example :
    Returns (add_translation_item 4 two_blocks 104 (7 ∷ 8 ∷ [])) (Within 4 two_blocks)
add_translation_item-Within_example =
    add_translation_item-Within 4 two_blocks 104 (7 ∷ 8 ∷ []) (omega arith) (omega arith)
      (omega arith)

abbrev blob_104 : PrefetchBlob
blob_104 = record { next_instruction_to_fetch = 104; is_to_stop = false; is_flushable = true }

precheck-Prechecks_example :
    Prechecks 4 65530 blob_104 two_blocks (precheck_translation_cache 4 65530 blob_104 two_blocks)
precheck-Prechecks_example =
    precheck-Prechecks 4 65530 blob_104 two_blocks (omega arith) (omega arith)

abbrev small_words : (k : ℕ) → get_or {A = ℕ} (9 ∷ []) k 0 < 2 ^ 32
small_words zero = omega arith
small_words (suc k) = omega arith

commit_translation-Commits_example :
    Returns
      (commit_translation 4 two_blocks 104 (7 ∷ 0 ∷ 0 ∷ 0 ∷ 0 ∷ []) (9 ∷ []))
      (Commits 0 two_blocks 104 (7 ∷ 0 ∷ 0 ∷ 0 ∷ 0 ∷ []) (9 ∷ []))
commit_translation-Commits_example =
    commit_translation-Commits 0 two_blocks 104 (7 ∷ 0 ∷ 0 ∷ 0 ∷ 0 ∷ []) (9 ∷ []) small_words
      (omega arith) 4 two_blocks-IsCache window_104 two_blocks-IsAbsent (omega arith)
      (omega arith, omega arith)

-- A guest that has `addi x0, x0, 0` everywhere, and blocks of twenty bytes.
abbrev no_others : OtherTranslators
no_others = record { fence = λ pc i. none; supervisor_level = λ pc i. none; amo = λ pc i. none }

abbrev twenty_bytes : Block → List ℕ
twenty_bytes b = replicate 20 7

abbrev params_of : Option Block → ℕ
params_of none = 0
params_of (some b) = length b.params

nop_params : (a : ℕ) → params_of (translate no_others a 0x13) ≡ 3
unfolding translate translate_as riscv_immediate_entry instruction_decoding_per_type
    riscv_addi_translator
nop_params a = refl

nop-Assembles :
    (a w : ℕ) (b : Block)
    → some 0x13 ≡ some w
    → translate no_others a w ≡ some b
    → Assembles 2 twenty_bytes b
nop-Assembles a w b e f =
    let nop : 0x13 ≡ w = some-injective 0x13 w e in
    let three : length b.params ≡ 3 =
      sym (ap params_of f)
      ∙ sym (ap (λ (v : ℕ). params_of (translate no_others a v)) nop)
      ∙ nop_params a in
    record { nonempty = omega arith; small = omega arith; params_fit = omega (arith, three) }

table-IsReady_example : IsReady 0 104 (
    prefetch_to_cache
      (1 ∷ 2 ∷ [])
      (table_translators no_others twenty_bytes (λ a. some 0x13))
      104
      two_blocks)
table-IsReady_example =
    table-IsReady (1 ∷ 2 ∷ []) 0 104 no_others twenty_bytes (λ a. some 0x13) nop-Assembles
      two_blocks window_104 (omega arith, omega arith, omega arith) two_blocks-IsCache
