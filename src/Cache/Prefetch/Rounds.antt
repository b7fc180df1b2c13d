-- ===== src/Cache/Prefetch/Rounds.antt =====
-- One round of the loop of `prefetch_instructions`: it ends the loop well, or fills an item.
use hyrule.Prelude.{ℕ, suc, ◌+◌, ◌*◌, ◌^◌, ◌≤◌, ◌<◌, ◌≡◌, refl, ◌∙◌, arith}
use hyrule.Prelude.{Bool, true, false, Option, none, some, inl, inr, ◌⊎◌, List, length, get_or}
use hyrule.Prelude.{◌==◌, Bool-cases}
use hyrule.Cache.{
  TranslationCache, MappingItem, search_translation_item, flush_translation_cache,
  translation_cache_size,
}
use hyrule.Prelude.Returns.{Returns}
use hyrule.Cache.Invariant.{
  InWindow, IsCache, IsAbsent, item_found, flush-IsCache, FindsItem, search-Finds_item,
  item_found-present,
}
use hyrule.Cache.Add.{Fits}
use hyrule.Cache.Commit.{
  PrefetchBlob, Prechecked, goes_on, returns, precheck_translation_cache, commit_translation,
}
use hyrule.Cache.Commit.Commits.{Commits, commit_translation-Commits}
use hyrule.Cache.Commit.Room.{Prechecks, precheck-Prechecks}
use hyrule.Cache.Prefetch.{
  Translated, Translators, Prefetched, finished, process_ends, assertion_fails, out_of_fuel,
  Fetched, again, over, after_commit, after_precheck, prefetch_one, prefetch_searched,
  prefetch_round,
}

-- A block that has room in an empty cache, and ends with its parameters.
pub record IsTranslated (jumper : ℕ) (t : Translated) : Type 0 where
  pub nonempty : 0 < length t.bytes
  pub small : length t.bytes + jumper ≤ translation_cache_size
  pub params_fit : 4 * length t.params ≤ length t.bytes
  pub words : (k : ℕ) → get_or t.params k 0 < 2 ^ 32

abbrev pub IsPresent : TranslationCache → ℕ → Type 0
IsPresent c pc = (item : MappingItem) × (item_found c pc ≡ some (some item))

module _ (jumper base pc : ℕ) where
  -- The unit is in the cache, and behind it is room for the jumper if there is a new block.
  abbrev pub Ends : ℕ → Prefetched → Type 0
  Ends old (finished c) =
      IsCache base c
      × IsPresent c pc
      × ((c.translation_cache_ptr ≡ old)
          ⊎ (c.translation_cache_ptr + jumper ≤ translation_cache_size))
  Ends old process_ends = Unit
  Ends old assertion_fails = ⊥
  Ends old out_of_fuel = ⊥

  -- Between two rounds, with `k` blocks of the unit behind the loop.
  pub record Runs (k : ℕ) (blob : PrefetchBlob) (c : TranslationCache) : Type 0 where
    pub still : IsCache base c
    pub next_is : blob.next_instruction_to_fetch ≡ pc + 4 * k
    pub counted : k ≤ c.nr_translated_instructions
    pub unflushable : blob.is_flushable ≡ false
    pub present : IsPresent c pc
    pub room : c.translation_cache_ptr + jumper ≤ translation_cache_size

  abbrev pub RoundEnds : ℕ → ℕ → ℕ → Fetched → Type 0
  RoundEnds old k nr (over r) = Ends old r
  RoundEnds old k nr (again blob c) = Runs (suc k) blob c × (nr < c.nr_translated_instructions)

module _ (jumper base pc : ℕ) (translators : Translators)
    (translated : (a : ℕ) (t : Translated) → translators a ≡ some t → IsTranslated jumper t)
    (in_window : InWindow base pc) (unit_in_window : InWindow base (pc + 4 * 512)) where
  after-IsPresent :
      (c : TranslationCache) (a : ℕ) (block params : List ℕ) (d : TranslationCache)
      → Commits base c a block params d
      → (a ≡ pc) ⊎ IsPresent c pc
      → IsPresent d pc
  after-IsPresent c a block params d m before = elim (Bool-cases (pc == a)) [
    | inl same ↦ (
      record { guest_pc = a; tc_offset = c.translation_cache_ptr },
      m.lookup pc in_window ∙ rw same refl,
    )
    | inr differs ↦ elim before [
      | inl here ↦ absurd (ground arith)
      | inr (item, found) ↦ (item, m.lookup pc in_window ∙ rw differs found)
    ]
  ]

  -- The translator's commit of a block that has room.
  commits :
      (old k nr : ℕ) (blob : PrefetchBlob) (c : TranslationCache) (t : Translated)
      → IsTranslated jumper t
      → IsCache base c
      → blob.next_instruction_to_fetch ≡ pc + 4 * k
      → k ≤ 512
      → blob.is_flushable ≡ false
      → IsAbsent c blob.next_instruction_to_fetch
      → Fits jumper c (length t.bytes)
      → k ≤ c.nr_translated_instructions
      → nr ≤ c.nr_translated_instructions
      → ((k ≡ 0) ⊎ IsPresent c pc)
      → RoundEnds jumper base pc old k nr (
          after_commit blob t.stops
            (commit_translation jumper c blob.next_instruction_to_fetch t.bytes t.params))
  commits old k nr blob c t fine ok at small unflushable absent fits counted more before =
      done t.stops (commit_translation jumper c blob.next_instruction_to_fetch t.bytes t.params) (
        commit_translation-Commits base c blob.next_instruction_to_fetch t.bytes t.params fine.words
          fine.params_fit jumper ok (omega arith, omega arith, omega arith) absent fine.nonempty
          fits)
    where
      here : ((k ≡ 0) ⊎ IsPresent c pc) → (blob.next_instruction_to_fetch ≡ pc) ⊎ IsPresent c pc
      here (inl zero_k) = inl (omega arith)
      here (inr there) = inr there

      done :
          (stops : Bool) (o : Option TranslationCache)
          → Returns o (Commits base c blob.next_instruction_to_fetch t.bytes t.params)
          → RoundEnds jumper base pc old k nr (after_commit blob stops o)
      done stops none r = absurd r
      done true (some d) m = (
        m.still,
        after-IsPresent c blob.next_instruction_to_fetch t.bytes t.params d m (here before),
        inr (omega (arith, m.moved)),
      )
      done false (some d) m = (
        record {
          still = m.still;
          next_is = omega (arith, at);
          counted = omega (arith, m.counted);
          unflushable = unflushable;
          present =
              after-IsPresent c blob.next_instruction_to_fetch t.bytes t.params d m (here before);
          room = omega (arith, m.moved);
        },
        omega (arith, m.counted),
      )

  -- Before a round: the first, which may flush, or a later one.
  abbrev pub Stage : ℕ → ℕ → PrefetchBlob → TranslationCache → Type 0
  Stage k nr blob c =
      ((k ≡ 0) × (blob.is_flushable ≡ true) × (nr ≡ 0))
      ⊎ (IsPresent c pc × (blob.is_flushable ≡ false))

  module _ (old k nr : ℕ) (blob : PrefetchBlob) (c : TranslationCache) (ok : IsCache base c)
      (next_is : blob.next_instruction_to_fetch ≡ pc + 4 * k)
      (counted : k ≤ c.nr_translated_instructions) (more : nr ≤ c.nr_translated_instructions)
      (stage : Stage k nr blob c)
      (room : (c.translation_cache_ptr ≡ old)
        ⊎ (c.translation_cache_ptr + jumper ≤ translation_cache_size)) where
    started : Stage k nr blob c → (k ≡ 0) ⊎ IsPresent c pc
    started (inl (zero_k, _, _)) = inl zero_k
    started (inr (there, _)) = inr there

    -- The cache that the check goes on with.
    checked :
        (size : ℕ) (d : TranslationCache)
        → IsAbsent c blob.next_instruction_to_fetch
        → ((d ≡ c)
            ⊎ ((d ≡ flush_translation_cache c) × (blob.is_flushable ≡ true) × ¬ Fits jumper c size))
        → IsCache base d
          × IsAbsent d blob.next_instruction_to_fetch
          × (k ≤ d.nr_translated_instructions)
          × (nr ≤ d.nr_translated_instructions)
          × ((k ≡ 0) ⊎ IsPresent d pc)
    checked size d absent (inl e) = rw e (ok, absent, counted, more, started stage)
    checked size d absent (inr (e, flushable, _)) = elim stage [
      | inl (zero_k, _, zero_nr) ↦
          rw e (
            flush-IsCache base c,
            λ i lt. absurd (omega arith),
            omega arith,
            omega arith,
            inl zero_k,
          )
      | inr (_, unflushable) ↦ absurd (ground arith)
    ]

    prechecked :
        (t : Translated) (p : Prechecked)
        → IsTranslated jumper t
        → IsAbsent c blob.next_instruction_to_fetch
        → Prechecks jumper (length t.bytes) blob c p
        → RoundEnds jumper base pc old k nr (after_precheck jumper t c p)
    prechecked t (returns b) fine absent (_, unflushable, _) = elim stage [
      | inl (_, flushable, _) ↦ absurd (ground arith)
      | inr (there, _) ↦ (ok, there, room)
    ]
    prechecked t (goes_on b d) fine absent (fits, same, how) =
        let (still, absent_d, counted_d, more_d, before) = checked (length t.bytes) d absent how in
        rw same (
          commits old k nr (record blob { is_flushable = false }) d t fine still next_is
            (omega (arith, still.count)) refl absent_d fits counted_d more_d before)

    searched :
        (o : Option (Option ℕ))
        → Returns o (FindsItem c blob.next_instruction_to_fetch)
        → RoundEnds jumper base pc old k nr (prefetch_searched jumper translators blob c o)
    searched none r = absurd r
    searched (some (some i)) (below, same) = elim stage [
      | inl (zero_k, _, _) ↦ (
        ok,
        (c.pc_mappings i, item_found-present base c ok pc in_window i below (omega (arith, same))),
        room,
      )
      | inr (there, _) ↦ (ok, there, room)
    ]
    searched (some none) absent = fetched (translators blob.next_instruction_to_fetch) refl
      where
        fetched :
            (o : Option Translated)
            → translators blob.next_instruction_to_fetch ≡ o
            → RoundEnds jumper base pc old k nr (prefetch_one jumper blob c o)
        fetched none e = tt
        fetched (some t) e =
            let fine = translated blob.next_instruction_to_fetch t e in
            prechecked t (precheck_translation_cache jumper (length t.bytes) blob c) fine absent
              (precheck-Prechecks jumper (length t.bytes) blob c fine.nonempty fine.small)

    pub round : RoundEnds jumper base pc old k nr (prefetch_round jumper translators blob c)
    unfolding prefetch_round
    round = searched (search_translation_item c blob.next_instruction_to_fetch) (
        search-Finds_item base c ok blob.next_instruction_to_fetch
          (omega (arith, ok.count), omega (arith, ok.count), omega (arith, ok.count)))
