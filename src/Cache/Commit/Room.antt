-- ===== src/Cache/Commit/Room.antt =====
-- `PRECHECK_TRANSLATION_CACHE`: what it goes on with has room for the block.
use hyrule.Prelude.{ℕ, ◌+◌, ◌≤◌, ◌<◌, ◌≡◌, refl}
use hyrule.Prelude.{arith, true, false, inl, inr, ◌⊎◌}
use hyrule.Prelude.{Bool-cases}
use hyrule.Prelude.Int.{pos, ltb_ℤ, ◌-ℤ◌}
use hyrule.Cache.{
  TranslationCache, flush_translation_cache, unoccupied_cache_size, translation_cache_size,
}
use hyrule.Cache.Add.{Fits, Fits-or-not}
use hyrule.Cache.Commit.{PrefetchBlob, Prechecked, goes_on, returns, precheck_translation_cache}

-- Before a block: it has room, in the cache as it is or flushed, or the unit ends for want of room.
abbrev pub Prechecks : ℕ → ℕ → PrefetchBlob → TranslationCache → Prechecked → Type 0
Prechecks jumper size blob c (goes_on b d) =
    Fits jumper d size
    × (b ≡ record blob { is_flushable = false })
    × ((d ≡ c)
        ⊎ ((d ≡ flush_translation_cache c) × (blob.is_flushable ≡ true) × ¬ Fits jumper c size))
Prechecks jumper size blob c (returns b) =
    (b ≡ record blob { is_to_stop = true }) × (blob.is_flushable ≡ false) × ¬ Fits jumper c size

room_test :
    (jumper size : ℕ) (c : TranslationCache)
    → 0 < size
    → Fits jumper c size
    → ltb_ℤ (unoccupied_cache_size jumper c) (pos size) ≡ false
unfolding unoccupied_cache_size ◌-ℤ◌
room_test jumper size c nonempty fits = ground arith

no_room_test :
    (jumper size : ℕ) (c : TranslationCache)
    → 0 < size
    → ¬ Fits jumper c size
    → ltb_ℤ (unoccupied_cache_size jumper c) (pos size) ≡ true
unfolding unoccupied_cache_size ◌-ℤ◌
no_room_test jumper size c nonempty full = ground arith

-- For a block of at least one byte that fits an empty cache together with a jumper: where the check
-- goes on, there is an item and room for the block, flushing is switched off, and the cache is the
-- old one, or the flushed one if flushing was allowed and the old one had no room; where it returns,
-- the unit is told to stop, flushing was not allowed and there was no room.
pub precheck-Prechecks :
    (jumper size : ℕ) (blob : PrefetchBlob) (c : TranslationCache)
    → 0 < size
    → size + jumper ≤ translation_cache_size
    → Prechecks jumper size blob c (precheck_translation_cache jumper size blob c)
unfolding precheck_translation_cache
precheck-Prechecks jumper size blob c nonempty small = elim (Fits-or-not jumper c size) [
  | inl fits ↦ rw (room_test jumper size c nonempty fits) (fits, refl, inl refl)
  | inr full ↦ elim (Bool-cases blob.is_flushable) [
    | inl may ↦
        rw (no_room_test jumper size c nonempty full, may)
          ((omega arith, omega arith), refl, inr (refl, refl, full))
    | inr may_not ↦ rw (no_room_test jumper size c nonempty full, may_not) (refl, refl, full)
  ]
]
