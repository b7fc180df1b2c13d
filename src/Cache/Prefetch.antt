-- ===== src/Cache/Prefetch.antt =====
-- `prefetch_instructions` of sandbox/translation.c on the cache: the unit at the hart's pc is translated
-- block by block, and a jumper to the monitor is put behind it. `vmresume` then enters at the item.
pub mod Rounds
pub mod Ends
pub mod Table
use hyrule.Prelude.{ℕ, zero, suc, ◌+◌, ◌-◌, ◌%◌, ◌^◌, Bool, true, false, Option, none, some, List}
use hyrule.Prelude.{length, ◌==◌, if◌then◌else◌}
use hyrule.Cache.{TranslationCache, search_translation_item}
use hyrule.Cache.Memory.{Array, copy_in}
use hyrule.Cache.Commit.{
  PrefetchBlob, Prechecked, goes_on, returns, precheck_translation_cache, commit_translation,
}

-- What a translator assembles for an instruction: the bytes of the block with its parameters' places,
-- the parameters, and whether it sets `is_to_stop`.
pub record Translated : Type 0 where
  pub bytes : List ℕ
  pub params : List ℕ
  pub stops : Bool

-- The guest's code and the table of translators, at an address: `none` where the read does not return
-- or no translator is found, on which the process ends.
abbrev pub Translators : Type 0
Translators = ℕ → Option Translated

-- The loop comes to its end, the guest's process ends, an assertion of the cache fails, or the fuel is
-- used up.
pub data Prefetched : Type 0 where
  finished : TranslationCache → Prefetched
  process_ends assertion_fails out_of_fuel : Prefetched

-- A round that is over without leaving the loop has a next one.
pub data Fetched : Type 0 where
  again : PrefetchBlob → TranslationCache → Fetched
  over : Prefetched → Fetched

-- The translator's last statement and the loop's test of `is_to_stop`.
abbrev pub after_commit : PrefetchBlob → Bool → Option TranslationCache → Fetched
after_commit blob stops none = over assertion_fails
after_commit blob true (some c) = over (finished c)
after_commit blob false (some c) =
    again
      (record blob { next_instruction_to_fetch = (blob.next_instruction_to_fetch + 4) % 2 ^ 32 }) c

module _ (jumper : ℕ) where
  -- The translator, from its check of the cache on.
  abbrev pub after_precheck : Translated → TranslationCache → Prechecked → Fetched
  after_precheck t c (returns blob) = over (finished c)
  after_precheck t c (goes_on blob d) =
      after_commit blob t.stops
        (commit_translation jumper d blob.next_instruction_to_fetch t.bytes t.params)

  -- `prefetch_one_instruction`.
  abbrev pub prefetch_one : PrefetchBlob → TranslationCache → Option Translated → Fetched
  prefetch_one blob c none = over process_ends
  prefetch_one blob c (some t) =
      after_precheck t c (precheck_translation_cache jumper (length t.bytes) blob c)

  -- One round of the loop, which ends it where the next instruction is in the cache.
  abbrev pub prefetch_searched :
      Translators → PrefetchBlob → TranslationCache → Option (Option ℕ) → Fetched
  prefetch_searched translators blob c none = over out_of_fuel
  prefetch_searched translators blob c (some (some i)) = over (finished c)
  prefetch_searched translators blob c (some none) =
      prefetch_one blob c (translators blob.next_instruction_to_fetch)

  unfoldable pub prefetch_round : Translators → PrefetchBlob → TranslationCache → Fetched
  prefetch_round translators blob c =
      prefetch_searched translators blob c
        (search_translation_item c blob.next_instruction_to_fetch)

  unfoldable pub prefetch_loop : Translators → ℕ → PrefetchBlob → TranslationCache → Prefetched
  prefetch_loop translators zero blob c = out_of_fuel
  prefetch_loop translators (suc fuel) blob c = elim (prefetch_round translators blob c) [
    | over r ↦ r
    | again next d ↦ prefetch_loop translators fuel next d
  ]

-- The jumper behind the unit, unless the pointer is where it was before.
unfoldable pub append_jumper : List ℕ → ℕ → TranslationCache → TranslationCache
append_jumper jumper_code old_trans_ptr c =
    if c.translation_cache_ptr == old_trans_ptr then c else (record c {
      translation_cache = copy_in c.translation_cache c.translation_cache_ptr jumper_code;
      translation_cache_ptr = c.translation_cache_ptr + length jumper_code;
    })

abbrev pub with_jumper : List ℕ → ℕ → Prefetched → Prefetched
with_jumper jumper_code old_trans_ptr (finished c) =
    finished (append_jumper jumper_code old_trans_ptr c)
with_jumper jumper_code old_trans_ptr process_ends = process_ends
with_jumper jumper_code old_trans_ptr assertion_fails = assertion_fails
with_jumper jumper_code old_trans_ptr out_of_fuel = out_of_fuel

-- One block for every item and one round more.
unfoldable pub prefetch_to_cache : List ℕ → Translators → ℕ → TranslationCache → Prefetched
prefetch_to_cache jumper_code translators pc c = with_jumper jumper_code c.translation_cache_ptr (
    prefetch_loop (length jumper_code) translators 1024
      (record { next_instruction_to_fetch = pc; is_to_stop = false; is_flushable = true }) c)
