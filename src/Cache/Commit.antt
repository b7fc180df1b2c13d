-- ===== src/Cache/Commit.antt =====
-- The macros of sandbox/translation.h that put a block into the cache: `PRECHECK_TRANSLATION_CACHE`,
-- which may flush it once, and `COMMIT_TRANSLATION`.
pub mod Params
pub mod Room
pub mod Commits
use hyrule.Prelude.{
  ℕ, zero, suc, ◌+◌, ◌-◌, ◌*◌, ◌/◌, ◌%◌, ◌^◌, Bool, true, false, Option, none, some,
}
use hyrule.Prelude.{List, [], ◌∷◌, length, ◌==◌, if◌then◌else◌}
use hyrule.Prelude.Int.{pos, ltb_ℤ}
use hyrule.Cache.{
  TranslationCache, MappingItem, Added, add_translation_item, search_translation_item,
  flush_translation_cache, unoccupied_cache_size,
}
use hyrule.Cache.Memory.{Array, copy_in}
use hyrule.Cache.Order.{is_zero}

-- `struct prefetch_blob`, less the pointer to the hart.
pub record PrefetchBlob : Type 0 where
  pub next_instruction_to_fetch : ℕ
  pub is_to_stop : Bool
  pub is_flushable : Bool

-- The translator goes on with this cache, or returns.
pub data Prechecked : Type 0 where
  goes_on : PrefetchBlob → TranslationCache → Prechecked
  returns : PrefetchBlob → Prechecked

unfoldable pub precheck_translation_cache : ℕ → ℕ → PrefetchBlob → TranslationCache → Prechecked
precheck_translation_cache jumper size blob c =
    if ltb_ℤ (unoccupied_cache_size jumper c) (pos size)
    then (if blob.is_flushable
        then goes_on (record blob { is_flushable = false }) (flush_translation_cache c)
        else returns (record blob { is_to_stop = true }))
    else goes_on (record blob { is_flushable = false }) c

-- The four bytes of a `uint32_t`.
abbrev pub bytes32 : ℕ → List ℕ
bytes32 w = w % 256 ∷ w / 2 ^ 8 % 256 ∷ w / 2 ^ 16 % 256 ∷ w / 2 ^ 24 % 256 ∷ []

-- The loop that writes the parameters from `__ptr` on.
unfoldable pub write_params : Array ℕ → ℕ → List ℕ → Array ℕ
write_params cache ptr [] = cache
write_params cache ptr (p ∷ params) = write_params (copy_in cache ptr (bytes32 p)) (ptr + 4) params

-- The item's block ends with the parameters; an assertion fails if the item is another one's, and where
-- there is none.
unfoldable pub write_item :
    TranslationCache → ℕ → ℕ → List ℕ → MappingItem → Option TranslationCache
write_item c pc size params item =
    if item.guest_pc == pc
    then some (record c {
      translation_cache =
          write_params c.translation_cache (item.tc_offset + size - 4 * length params) params;
    })
    else none

abbrev pub write_found :
    TranslationCache → ℕ → ℕ → List ℕ → Option (Option ℕ) → Option TranslationCache
write_found c pc size params none = none
write_found c pc size params (some none) = none
write_found c pc size params (some (some i)) = write_item c pc size params (c.pc_mappings i)

abbrev pub commit_added : ℕ → ℕ → List ℕ → Option Added → Option TranslationCache
commit_added pc size params none = none
commit_added pc size params (some r) =
    if is_zero r.returned
    then write_found r.cache pc size params (search_translation_item r.cache pc)
    else none

-- `none` where an assertion fails.
unfoldable pub commit_translation :
    ℕ → TranslationCache → ℕ → List ℕ → List ℕ → Option TranslationCache
commit_translation jumper c pc block params =
    commit_added pc (length block) params (add_translation_item jumper c pc block)
