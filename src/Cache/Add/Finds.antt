-- ===== src/Cache/Add/Finds.antt =====
-- After `add_translation_item` the cache is well formed, the new item is found by its pc and every other
-- item as before; a call that refuses changes nothing.
use hyrule.Prelude.{ℕ, ◌+◌, ◌≤◌, ◌<◌, ◌≡◌, ◌≢◌, sym, ap, ◌∙◌, arith}
use hyrule.Prelude.{some, inl, inr, List, length, ◌==◌, get_or, Bool-cases, ==_iff}
use hyrule.Prelude.{if◌then◌else◌}
use hyrule.Prelude.Int.{pos}
use hyrule.Cache.{TranslationCache, MappingItem, Added, add_translation_item, put_item}
use hyrule.Cache.Memory.{Array, copy_in_inside, copy_in_before}
use hyrule.Prelude.Returns.{Returns, Returns-map}
use hyrule.Cache.Sort.Shift.{
  source, destination, source_below, destination_below, source-destination, destination-source,
}
use hyrule.Cache.Sort.Inserts.{Inserts}
use hyrule.Cache.Invariant.{
  InWindow, IsCache, IsAbsent, item_found, item_found-present, item_found-absent,
  IsAbsent-or_present,
}
use hyrule.Cache.Add.{
  Fits, Fits-or-not, IsAdded, put_absent, add_refused, add-sorted, put_window, put_distinct,
  new_item_behind, put_before,
}

module _ (base jumper : ℕ) (c : TranslationCache) (pc : ℕ) (block : List ℕ) (ok : IsCache base c)
    (in_window : InWindow base pc) (absent : IsAbsent c pc) (fits : Fits jumper c (length block))
    (r : Added) (a : IsAdded c pc block r)
    (s : Inserts
      (λ item. item.guest_pc)
      (put_item c pc block).pc_mappings
      c.nr_translated_instructions
      r.cache.pc_mappings) where
  abbrev last : ℕ
  last = c.nr_translated_instructions

  abbrev put : Array MappingItem
  put = (put_item c pc block).pc_mappings

  abbrev from : ℕ → ℕ
  from = source s.permutes.idx_move last

  stands : (i : ℕ) → r.cache.pc_mappings i ≡ put (from i)
  stands = s.permutes.stands

  from_below : (i : ℕ) → i < r.cache.nr_translated_instructions → from i ≤ last
  from_below i lt =
      source_below s.permutes.idx_move last i s.permutes.inside (omega (arith, a.counted))

  added-IsCache : IsCache base r.cache
  added-IsCache = record {
    count = omega (arith, a.counted);
    sorted = λ i j le lt. s.sorted i j le (omega (arith, a.counted));
    distinct = λ i j li lj e.
        let same : from i ≡ from j =
          put_distinct jumper c pc block base ok in_window absent (from i) (from j)
            (from_below i li) (from_below j lj)
            (sym (ap (λ m. m.guest_pc) (stands i)) ∙ e ∙ ap (λ m. m.guest_pc) (stands j)) in
        sym (destination-source s.permutes.idx_move last i s.permutes.inside)
        ∙ ap (destination s.permutes.idx_move last) same
        ∙ destination-source s.permutes.idx_move last j s.permutes.inside;
    near = λ i lt.
        rw (stands i) (put_window jumper c pc block base ok in_window (from i) (from_below i lt));
    room = omega (arith, a.moved);
  }

  to_below :
      (j : ℕ)
      → j ≤ last
      → destination s.permutes.idx_move last j < r.cache.nr_translated_instructions
  to_below j le =
      omega (arith, a.counted, destination_below s.permutes.idx_move last j s.permutes.inside le)

  -- The item that stood at `j` is found by its pc.
  found_from :
      (q j : ℕ)
      → InWindow base q
      → j ≤ last
      → (put j).guest_pc ≡ q
      → item_found r.cache q ≡ some (some (put j))
  found_from q j in_window_q le e =
      let at : r.cache.pc_mappings (destination s.permutes.idx_move last j) ≡ put j =
        stands (destination s.permutes.idx_move last j)
        ∙ ap put (source-destination s.permutes.idx_move last j s.permutes.inside) in
      item_found-present base r.cache added-IsCache q in_window_q
        (destination s.permutes.idx_move last j) (to_below j le) (ap (λ m. m.guest_pc) at ∙ e)
      ∙ ap (λ m. some (some m)) at

  still-IsAbsent : (q : ℕ) → q ≢ pc → IsAbsent c q → IsAbsent r.cache q
  still-IsAbsent q ne none_before i lt e =
      put_absent jumper c pc block base ok in_window q ne none_before (from i) (from_below i lt)
        (sym (ap (λ m. m.guest_pc) (stands i)) ∙ e)

  abbrev new_item : MappingItem
  new_item = record { guest_pc = pc; tc_offset = c.translation_cache_ptr }

  new_found : item_found r.cache pc ≡ some (some new_item)
  new_found =
      let e = new_item_behind jumper c pc block base ok in_window in
      found_from pc last in_window (omega arith) (ap (λ m. m.guest_pc) e)
      ∙ ap (λ m. some (some m)) e

  other_found : (q : ℕ) → InWindow base q → q ≢ pc → item_found r.cache q ≡ item_found c q
  other_found q in_window_q ne = elim (IsAbsent-or_present base c ok q in_window_q) [
    | inl none_before ↦
        item_found-absent base r.cache added-IsCache q in_window_q (still-IsAbsent q ne none_before)
        ∙ sym (item_found-absent base c ok q in_window_q none_before)
    | inr (j, lt, e) ↦
        let before = put_before jumper c pc block base ok in_window j lt in
        found_from q j in_window_q (omega arith) (ap (λ m. m.guest_pc) before ∙ e)
        ∙ ap (λ m. some (some m)) before
        ∙ sym (item_found-present base c ok q in_window_q j lt e)
  ]

  lookup_of :
      (q : ℕ)
      → InWindow base q
      → item_found r.cache q ≡ (if q == pc then some (some new_item) else item_found c q)
  lookup_of q in_window_q = elim (Bool-cases (q == pc)) [
    | inl same ↦ let e : q ≡ pc = (==_iff q pc).0 same in rw (same, e) new_found
    | inr differs ↦ rw differs (other_found q in_window_q (λ e. ground arith))
  ]

-- The new block and item.
pub record Lookups (base : ℕ) (c : TranslationCache) (pc : ℕ) (block : List ℕ) (r : Added)
    : Type 0 where
  pub returned_zero : r.returned ≡ pos 0
  pub lookup :
      (q : ℕ)
      → InWindow base q
      → item_found r.cache q ≡ (
          if q == pc
          then some (some (record { guest_pc = pc; tc_offset = c.translation_cache_ptr }))
          else item_found c q)
  pub block_there :
      (i : ℕ)
      → i < length block
      → r.cache.translation_cache (c.translation_cache_ptr + i) ≡ get_or block i 0
  pub blocks_before :
      (i : ℕ) → i < c.translation_cache_ptr → r.cache.translation_cache i ≡ c.translation_cache i

module _ (base jumper : ℕ) (c : TranslationCache) (pc : ℕ) (block : List ℕ) (ok : IsCache base c)
    (in_window : InWindow base pc) (absent : IsAbsent c pc) where
  -- In a cache whose items are sorted by their pcs, with one item for each pc, all pcs within one
  -- window of 2^31 bytes, and with the sizes in their bounds, for a pc of the window that has no
  -- item yet and a block for which there is room: adding returns zero, and then the search by any pc
  -- of the window finds the new item for the added pc, with the cache pointer from before as its
  -- offset, and for every other pc what it found before; the block's bytes stand at that offset and
  -- the bytes before it are unchanged.
  pub add_translation_item-Lookups :
      Fits jumper c (length block)
      → Returns (add_translation_item jumper c pc block) (Lookups base c pc block)
  add_translation_item-Lookups fits =
      Returns-map (add_translation_item jumper c pc block)
        (add-sorted jumper c pc block base ok in_window fits)
        (λ r (a, s). record {
          returned_zero = a.returned_zero;
          lookup = lookup_of base jumper c pc block ok in_window absent fits r a s;
          block_there = λ i lt.
              rw a.bytes (copy_in_inside c.translation_cache c.translation_cache_ptr i block lt);
          blocks_before = λ i lt.
              rw a.bytes (copy_in_before c.translation_cache c.translation_cache_ptr i block lt);
        })

  -- In a cache whose items are sorted by their pcs, with one item for each pc, all pcs within one
  -- window of 2^31 bytes, and with the sizes in their bounds, adding a block of at least one byte
  -- for a pc of the window that has no item yet returns, whether it refuses the block or not, and
  -- leaves a cache of which the same holds.
  pub add_translation_item-IsCache :
      0 < length block
      → Returns (add_translation_item jumper c pc block) (λ r. IsCache base r.cache)
  add_translation_item-IsCache nonempty = elim (Fits-or-not jumper c (length block)) [
    | inl fits ↦
        Returns-map (add_translation_item jumper c pc block)
          (add-sorted jumper c pc block base ok in_window fits)
          (λ r (a, s). added-IsCache base jumper c pc block ok in_window absent fits r a s)
    | inr full ↦ rw (add_refused jumper c pc block full nonempty) ok
  ]
