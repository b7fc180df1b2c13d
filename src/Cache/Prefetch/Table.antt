-- ===== src/Cache/Prefetch/Table.antt =====
-- The loop of `prefetch_instructions` on the cache with the table of translators of sandbox/translation.c:
-- the guest's words and the assembler of the emulator's blocks are what is left open.
use hyrule.Prelude.{
  ℕ, zero, suc, ◌+◌, ◌*◌, ◌%◌, ◌^◌, ◌≤◌, ◌<◌, ◌≡◌, refl, arith, Option, none, some,
}
use hyrule.Prelude.{List, [], ◌∷◌, map, length, length-map, get_or, some-injective}
use mathlib.Core.Path.{subst}
use hyrule.Cache.{TranslationCache, translation_cache_size}
use hyrule.Cache.Invariant.{InWindow, IsCache}
use hyrule.Cache.Prefetch.{Translated, Translators, prefetch_to_cache}
use hyrule.Cache.Prefetch.Rounds.{IsTranslated}
use hyrule.Cache.Prefetch.Ends.{IsReady, prefetch_to_cache-IsReady}
use hyrule.Translate.Block.{Block}
use hyrule.Translate.Dispatch.{OtherTranslators, translate}

-- The bytes are those between the labels of the block; the parameters are an array of `uint32_t`.
abbrev pub assembled : (Block → List ℕ) → Option Block → Option Translated
assembled assemble none = none
assembled assemble (some b) =
    some (record {
      bytes = assemble b;
      params = map (λ (p : ℕ). p % 2 ^ 32) b.params;
      stops = b.stops;
    })

-- `prefetch_one_instruction` on the word that `mmu_instruction_read32` has read, if it returns.
abbrev pub translate_word : OtherTranslators → (Block → List ℕ) → ℕ → Option ℕ → Option Translated
translate_word others assemble a none = none
translate_word others assemble a (some intrs) = assembled assemble (translate others a intrs)

abbrev pub table_translators : OtherTranslators → (Block → List ℕ) → (ℕ → Option ℕ) → Translators
table_translators others assemble read a = translate_word others assemble a (read a)

-- An assembled block has code, ends with its parameters, and fits an empty cache with the jumper.
pub record Assembles (jumper : ℕ) (assemble : Block → List ℕ) (b : Block) : Type 0 where
  pub nonempty : 0 < length (assemble b)
  pub small : length (assemble b) + jumper ≤ translation_cache_size
  pub params_fit : 4 * length b.params ≤ length (assemble b)

cut_words : (ps : List ℕ) (k : ℕ) → get_or (map (λ (p : ℕ). p % 2 ^ 32) ps) k 0 < 2 ^ 32
cut_words [] k = omega arith
cut_words (p ∷ ps) zero = omega arith
cut_words (p ∷ ps) (suc k) = cut_words ps k

module _ (jumper_code : List ℕ) (base pc : ℕ) (others : OtherTranslators)
    (assemble : Block → List ℕ) (read : ℕ → Option ℕ)
    (assembles : (a w : ℕ) (b : Block)
      → read a ≡ some w
      → translate others a w ≡ some b
      → Assembles (length jumper_code) assemble b) where
  block-IsTranslated :
      (b : Block)
      → Assembles (length jumper_code) assemble b
      → IsTranslated (length jumper_code) (record {
        bytes = assemble b;
        params = map (λ (p : ℕ). p % 2 ^ 32) b.params;
        stops = b.stops;
      })
  block-IsTranslated b fine = record {
    nonempty = fine.nonempty;
    small = fine.small;
    params_fit = omega (arith, fine.params_fit, length-map b.params (λ (p : ℕ). p % 2 ^ 32));
    words = cut_words b.params;
  }

  found :
      (a w : ℕ) (t : Translated) (o : Option Block)
      → read a ≡ some w
      → translate others a w ≡ o
      → assembled assemble o ≡ some t
      → IsTranslated (length jumper_code) t
  found a w t none e f same = absurd (ground arith)
  found a w t (some b) e f same =
      subst (IsTranslated (length jumper_code)) (some-injective _ t same)
        (block-IsTranslated b (assembles a w b e f))

  table-IsTranslated :
      (a : ℕ) (t : Translated) (o : Option ℕ)
      → read a ≡ o
      → translate_word others assemble a o ≡ some t
      → IsTranslated (length jumper_code) t
  table-IsTranslated a t none e same = absurd (ground arith)
  table-IsTranslated a t (some w) e same = found a w t (translate others a w) e refl same

  -- For the table of translators, a cache whose items are sorted by their pcs, with one item for
  -- each pc, all pcs within one window of 2^31 bytes, and with the sizes in their bounds, and a pc
  -- with the 512 words behind it in that window, where each block that the table finds for a word
  -- that is read has at least one byte, is as long as its parameters, and fits an empty cache
  -- together with the jumper: 1024 rounds are enough for the loop of prefetch_instructions, no
  -- assertion on the cache fails, and unless the guest's process ends, the cache that is left has
  -- such items again and the search finds an item for the pc, which is what vmresume asserts.
  pub table-IsReady :
      (c : TranslationCache)
      → InWindow base pc
      → InWindow base (pc + 4 * 512)
      → IsCache base c
      → IsReady base pc
          (prefetch_to_cache jumper_code (table_translators others assemble read) pc c)
  table-IsReady c in_window unit_in_window ok =
      prefetch_to_cache-IsReady jumper_code base pc (table_translators others assemble read)
        (λ a t same. table-IsTranslated a t (read a) refl same) in_window unit_in_window c ok
