-- ===== src/Translate/Unit.antt =====
-- A translation unit: the loop of `prefetch_instructions` in sandbox/translation.c, and the run of the
-- unit's blocks, which stand one behind the other in the translation cache.
pub mod Spec
pub mod Refines
use hyrule.Prelude.{ℕ, ◌+◌, ◌%◌, ◌^◌, List, [], ◌∷◌, Option, none, some, if◌then◌else◌}
use hyrule.Host.Cpu.{Cpu}
use hyrule.Host.Instr.{Outcome, proceed, trap, fault}
use hyrule.Host.Run.{run}
use hyrule.Translate.Block.{Block, Host, env}
use hyrule.Translate.Dispatch.{OtherTranslators, translate}

-- One round of the loop: what the block of the instruction means for the blocks behind it. The rest is
-- translated at the next address only where the block does not end the unit.
abbrev pub add_block : Option Block → Option (List Block) → Option (List Block)
add_block none rest = none
add_block (some b) none = if b.stops then some (b ∷ []) else none
add_block (some b) (some bs) = if b.stops then some (b ∷ []) else some (b ∷ bs)

-- The words stand at consecutive addresses; behind the last stands an instruction that is in the
-- cache already, or the room of the cache ends.
unfoldable pub prefetch_instructions : OtherTranslators → ℕ → List ℕ → Option (List Block)
prefetch_instructions others pc [] = some []
prefetch_instructions others pc (w ∷ ws) =
    add_block (translate others pc w) (prefetch_instructions others ((pc + 4) % 2 ^ 32) ws)

-- Only a block that proceeds has a successor.
abbrev pub and_then : {A : Type 0} → Outcome A → (A → Outcome A) → Outcome A
and_then (proceed a) next = next a
and_then (trap a) next = trap a
and_then fault next = fault

-- Behind the last block stands the jump to the monitor.
unfoldable pub run_blocks : {M : Type 0} → Host M → List Block → Cpu M → Outcome (Cpu M)
run_blocks m [] s = trap s
run_blocks m (b ∷ bs) s = and_then (run (env m b) Option.none b.code s) (run_blocks m bs)
