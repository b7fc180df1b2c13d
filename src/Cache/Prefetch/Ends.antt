-- ===== src/Cache/Prefetch/Ends.antt =====
-- The loop of `prefetch_instructions` comes to its end, no assertion of the cache fails, and the item that
-- `vmresume` asks for is there.
use hyrule.Prelude.{ℕ, zero, suc, ◌+◌, ◌*◌, ◌≤◌, ◌<◌, ◌≡◌, refl, ◌∙◌, arith}
use hyrule.Prelude.{true, false, some, inl, inr, ◌⊎◌, List, length}
use hyrule.Prelude.{◌==◌, Bool-cases}
use hyrule.Cache.{
  TranslationCache, search_translation_item, translation_cache_size, max_instructions_totranslate,
}
use hyrule.Cache.Invariant.{InWindow, IsCache, item_found}
use hyrule.Cache.Commit.{PrefetchBlob}
use hyrule.Cache.Prefetch.{
  Translated, Translators, Prefetched, finished, process_ends, assertion_fails, out_of_fuel,
  Fetched, again, over, prefetch_round, prefetch_loop, append_jumper, with_jumper,
  prefetch_to_cache,
}
use hyrule.Cache.Prefetch.Rounds.{IsTranslated, IsPresent, Ends, Runs, RoundEnds, round}

module _ (jumper base pc : ℕ) (translators : Translators)
    (translated : (a : ℕ) (t : Translated) → translators a ≡ some t → IsTranslated jumper t)
    (in_window : InWindow base pc) (unit_in_window : InWindow base (pc + 4 * 512)) where
  -- The rest of the loop behind a round.
  continue :
      (old fuel k nr : ℕ) (f : Fetched)
      → RoundEnds jumper base pc old k nr f
      → ((blob : PrefetchBlob) (c : TranslationCache)
          → Runs jumper base pc (suc k) blob c
          → max_instructions_totranslate < c.nr_translated_instructions + fuel
          → Ends jumper base pc old (prefetch_loop jumper translators fuel blob c))
      → max_instructions_totranslate < suc nr + fuel
      → Ends jumper base pc old
          (elim f [ over r ↦ r | again next d ↦ prefetch_loop jumper translators fuel next d ])
  continue old fuel k nr (over r) e rest enough = e
  continue old fuel k nr (again blob c) (s, more) rest enough = rest blob c s (omega arith)

  -- Every round fills an item.
  loop-Ends :
      (old fuel k : ℕ) (blob : PrefetchBlob) (c : TranslationCache)
      → Runs jumper base pc k blob c
      → max_instructions_totranslate < c.nr_translated_instructions + fuel
      → Ends jumper base pc old (prefetch_loop jumper translators fuel blob c)
  unfolding prefetch_loop
  loop-Ends old zero k blob c s enough = absurd (omega (arith, s.still.count))
  loop-Ends old (suc fuel) k blob c s enough =
      continue old fuel k c.nr_translated_instructions (prefetch_round jumper translators blob c)
        (round jumper base pc translators translated in_window unit_in_window old k
          c.nr_translated_instructions blob c s.still s.next_is s.counted (omega arith)
          (inr (s.present, s.unflushable)) (inr s.room))
        (loop-Ends old fuel (suc k)) (omega arith)

  loop_from_start-Ends :
      (c : TranslationCache)
      → IsCache base c
      → Ends jumper base pc c.translation_cache_ptr (
          prefetch_loop jumper translators 1024
            (record { next_instruction_to_fetch = pc; is_to_stop = false; is_flushable = true })
            c)
  unfolding prefetch_loop
  loop_from_start-Ends c ok =
      let blob : PrefetchBlob = record {
        next_instruction_to_fetch = pc;
        is_to_stop = false;
        is_flushable = true;
      } in
      continue c.translation_cache_ptr 1023 0 0 (prefetch_round jumper translators blob c)
        (round jumper base pc translators translated in_window unit_in_window
          c.translation_cache_ptr 0 0 blob c ok (omega arith) (omega arith) (omega arith)
          (inl (refl, refl, refl)) (inl refl))
        (loop-Ends c.translation_cache_ptr 1023 1) (omega arith)

-- What `prefetch_instructions` leaves: the cache is well formed and holds the item that `vmresume`
-- asserts to find, or the guest's process has come to its end.
abbrev pub IsReady : ℕ → ℕ → Prefetched → Type 0
IsReady base pc (finished c) = IsCache base c × IsPresent c pc
IsReady base pc process_ends = Unit
IsReady base pc assertion_fails = ⊥
IsReady base pc out_of_fuel = ⊥

append_jumper-found :
    (jumper_code : List ℕ) (old pc : ℕ) (c : TranslationCache)
    → item_found (append_jumper jumper_code old c) pc ≡ item_found c pc
unfolding append_jumper search_translation_item
append_jumper-found jumper_code old pc c = elim (Bool-cases (c.translation_cache_ptr == old)) [
  | inl same ↦ rw same refl
  | inr differs ↦ rw differs refl
]

append_jumper-IsCache :
    (jumper_code : List ℕ) (old base : ℕ) (c : TranslationCache)
    → IsCache base c
    → ((c.translation_cache_ptr ≡ old)
        ⊎ (c.translation_cache_ptr + length jumper_code ≤ translation_cache_size))
    → IsCache base (append_jumper jumper_code old c)
unfolding append_jumper
append_jumper-IsCache jumper_code old base c ok room =
    elim (Bool-cases (c.translation_cache_ptr == old)) [
      | inl same ↦ rw same ok
      | inr differs ↦ rw differs (record {
        count = ok.count;
        sorted = ok.sorted;
        distinct = ok.distinct;
        near = ok.near;
        room = ground (arith, room);
      })
    ]

module _ (jumper_code : List ℕ) (base pc : ℕ) (translators : Translators)
    (translated : (a : ℕ) (t : Translated)
      → translators a ≡ some t
      → IsTranslated (length jumper_code) t)
    (in_window : InWindow base pc) (unit_in_window : InWindow base (pc + 4 * 512)) where
  ready :
      (old : ℕ) (r : Prefetched)
      → Ends (length jumper_code) base pc old r
      → IsReady base pc (with_jumper jumper_code old r)
  ready old (finished c) (ok, (item, found), room) = (
    append_jumper-IsCache jumper_code old base c ok room,
    (item, append_jumper-found jumper_code old pc c ∙ found),
  )
  ready old process_ends e = tt
  ready old assertion_fails e = e
  ready old out_of_fuel e = e

  -- For a cache whose items are sorted by their pcs, with one item for each pc, all pcs within one
  -- window of 2^31 bytes, and with the sizes in their bounds, a pc with the 512 words behind it in
  -- that window, and translators of which every block has at least one byte, ends with its
  -- parameters of 32 bits and fits an empty cache together with the jumper: 1024 rounds are enough
  -- for the loop, no assertion on the cache fails, and unless the guest's process ends, the cache
  -- that is left has such items again and the search finds an item for the pc, which is what
  -- vmresume asserts.
  pub prefetch_to_cache-IsReady :
      (c : TranslationCache)
      → IsCache base c
      → IsReady base pc (prefetch_to_cache jumper_code translators pc c)
  unfolding prefetch_to_cache
  prefetch_to_cache-IsReady c ok =
      let blob : PrefetchBlob = record {
        next_instruction_to_fetch = pc;
        is_to_stop = false;
        is_flushable = true;
      } in
      ready c.translation_cache_ptr (prefetch_loop (length jumper_code) translators 1024 blob c) (
        loop_from_start-Ends (length jumper_code) base pc translators translated in_window
          unit_in_window c ok)
