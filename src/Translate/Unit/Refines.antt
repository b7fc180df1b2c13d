-- ===== src/Translate/Unit/Refines.antt =====
-- A unit of straight-line code, up to its first jump or branch, does what its instructions do one after
-- the other.
use hyrule.Prelude.{ℕ, ◌+◌, ◌%◌, ◌^◌, ◌<◌, ◌≡◌, refl, ap, sym, ◌∙◌, arith, true}
use hyrule.Prelude.{List, [], ◌∷◌, map, none, some, Bool-cases, inl, inr}
use hyrule.Prelude.{some-injective}
use mathlib.Core.Path.{subst}
use hyrule.Hart.{Hart, IsHart, IsMmu}
use hyrule.Host.Cpu.{Cpu}
use hyrule.Host.Instr.{Outcome, proceed, trap, fault}
use hyrule.Host.Run.{run, hart_after}
use hyrule.Rv.{
  execute, write_reg, advance, finish_load, finish_store, load_value, store_value, address, reg,
}
use hyrule.Rv
use hyrule.Rv.Encode.{encode, IsInstr}
use hyrule.Rv.Invariant.{Keeps, execute-IsHart}
use hyrule.Translate.Block.{Block, Host, HostFits, Yields, env, execute_block}
use hyrule.Translate.Dispatch.{OtherTranslators, translate}
use hyrule.Translate.Dispatch.Table.{ends_unit}
use hyrule.Translate.Dispatch.Refines.{translate-refines, translate-faults, instr_faults}
use hyrule.Translate.Unit.{prefetch_instructions, run_blocks, and_then}
use hyrule.Translate.Unit.Spec.{execute_or_fault, execute_unit, AreInstrs, Follows, Leaves}
use hyrule.Translate.Unit.Spec.{execute-Follows, execute-Leaves, faults-ends_unit}

module _ {M : Type 0} (m : Host M) (mmu : IsMmu m.mmu) where
  -- What an instruction leaves, where its block does.
  record Goes (i : Rv.Instr) (h : Hart M) (o : Outcome (Hart M)) : Type 0 where
    keeps : Keeps o
    follows : Follows h.pc o
    leaves : ends_unit i ≡ true → Leaves o

  execute_or_fault-Goes :
      (i : Rv.Instr) (h : Hart M) → IsInstr i → IsHart h → Goes i h (execute_or_fault m.mmu i h)
  execute_or_fault-Goes i h widths ok = elim (Bool-cases (instr_faults i h)) [
    | inl faults ↦
        rw faults (record { keeps = record {}; follows = record {}; leaves = λ e. record {} })
    | inr fine ↦ rw fine (record {
      keeps = execute-IsHart m.mmu mmu i h widths ok;
      follows = execute-Follows m.mmu i h;
      leaves = execute-Leaves m.mmu i h;
    })
  ]

  module _ (others : OtherTranslators) (fits : HostFits m) where
    yields :
        (s : Cpu M) (i : Rv.Instr)
        → IsHart s.hart
        → IsInstr i
        → Yields m s
            (translate others s.hart.pc (encode i))
            (ends_unit i)
            (execute_or_fault m.mmu i s.hart)
    yields s i ok widths = elim (Bool-cases (instr_faults i s.hart)) [
      | inl faults ↦
          rw (faults, faults-ends_unit i s.hart faults)
            (translate-faults others m s fits ok i widths faults)
      | inr fine ↦ rw fine (translate-refines others m s fits ok i widths mmu fine)
    ]

    -- The same block at every hart with this pc.
    runs :
        (t : Cpu M) (i : Rv.Instr) (b : Block)
        → IsHart t.hart
        → IsInstr i
        → translate others t.hart.pc (encode i) ≡ some b
        → execute_block m b t ≡ execute_or_fault m.mmu i t.hart
    runs t i b ok widths found =
        let y = yields t i ok widths in
        subst (λ c. execute_block m c t ≡ execute_or_fault m.mmu i t.hart)
          (some-injective y.block b (sym y.is_found ∙ found)) y.outcome

    -- The rest of a unit, from every state at its address.
    abbrev Rest : ℕ → List Block → List Rv.Instr → Type 0
    Rest pc bs is =
        (t : Cpu M)
        → t.hart.pc ≡ pc
        → IsHart t.hart
        → hart_after (run_blocks m bs t) ≡ execute_unit m.mmu is t.hart

    continues :
        (i : Rv.Instr) (h : Hart M) (bs : List Block) (is : List Rv.Instr) (r : Outcome (Cpu M))
        → Goes i h (hart_after r)
        → Rest ((h.pc + 4) % 2 ^ 32) bs is
        → hart_after (and_then r (run_blocks m bs))
          ≡ and_then (hart_after r) (execute_unit m.mmu is)
    continues i h bs is (proceed u) goes rest = rest u goes.follows goes.keeps
    continues i h bs is (trap u) goes rest = refl
    continues i h bs is fault goes rest = refl

    stops_here :
        (i : Rv.Instr) (h : Hart M) (is : List Rv.Instr) (r : Outcome (Cpu M))
        → Goes i h (hart_after r)
        → ends_unit i ≡ true
        → hart_after (and_then r (run_blocks m []))
          ≡ and_then (hart_after r) (execute_unit m.mmu is)
    stops_here i h is (proceed u) goes e = absurd (goes.leaves e)
    stops_here i h is (trap u) goes e = refl
    stops_here i h is fault goes e = refl

    record UnitFound (pc : ℕ) (is : List Rv.Instr) : Type 0 where
      blocks : List Block
      is_found : prefetch_instructions others pc (map encode is) ≡ some blocks
      rest : Rest pc blocks is

    -- The loop has found blocks for the instructions at the hart's pc, and they come to this.
    pub record UnitYields (s : Cpu M) (is : List Rv.Instr) : Type 0 where
      pub blocks : List Block
      pub is_found : prefetch_instructions others s.hart.pc (map encode is) ≡ some blocks
      pub outcome : hart_after (run_blocks m blocks s) ≡ execute_unit m.mmu is s.hart

    -- `s` stands for any state from which the addresses are reached.
    unit-found :
        (s : Cpu M) (pc : ℕ) (is : List Rv.Instr)
        → IsHart s.hart
        → pc < 2 ^ 32
        → AreInstrs is
        → UnitFound pc is
    unfolding prefetch_instructions run_blocks execute_unit
    unit-found s pc [] ok lt instrs = record {
      blocks = [];
      is_found = refl;
      rest = λ t at ok. refl;
    }
    unit-found s pc (i ∷ is) ok lt (widths, instrs) =
        let later = unit-found s ((pc + 4) % 2 ^ 32) is ok (omega arith) instrs in
        let here =
          yields (record s { hart = record s.hart { pc = pc } }) i
            (record { count = ok.count; words = ok.words; zero_reg = ok.zero_reg; pc_word = lt })
            widths in
        elim (Bool-cases (ends_unit i)) [
          | inl ends ↦ record {
            blocks = here.block ∷ [];
            is_found = rw (here.is_found, later.is_found, here.unit ∙ ends) refl;
            rest = λ t at good.
                let e =
                  runs t i here.block good widths
                    (ap (λ a. translate others a (encode i)) at ∙ here.is_found) in
                stops_here i t.hart is (run (env m here.block) none here.block.code t)
                  (subst (Goes i t.hart) (sym e) (execute_or_fault-Goes i t.hart widths good)) ends
                ∙ ap (λ o. and_then o (execute_unit m.mmu is)) e;
          }
          | inr goes_on ↦ record {
            blocks = here.block ∷ later.blocks;
            is_found = rw (here.is_found, later.is_found, here.unit ∙ goes_on) refl;
            rest = λ t at good.
                let e =
                  runs t i here.block good widths
                    (ap (λ a. translate others a (encode i)) at ∙ here.is_found) in
                continues i t.hart later.blocks is (run (env m here.block) none here.block.code t)
                  (subst (Goes i t.hart) (sym e) (execute_or_fault-Goes i t.hart widths good))
                  (λ u at_u. later.rest u (at_u ∙ ap (λ (a : ℕ). (a + 4) % 2 ^ 32) at))
                ∙ ap (λ o. and_then o (execute_unit m.mmu is)) e;
          }
        ]

    -- For every list of RV32IM instructions whose fields have their widths, in a well-formed hart on
    -- a host whose hart structure does not wrap round the address space, with reads that have their
    -- widths: the loop finds blocks for their encoded words at the hart's pc and the addresses
    -- behind it, up to the first jump or branch, and running the blocks in a row ends as executing
    -- the instructions one after the other, with the same hart, where an instruction on whose
    -- operands the host's division faults ends in that fault.
    pub prefetch_instructions-refines :
        (s : Cpu M) (is : List Rv.Instr) → IsHart s.hart → AreInstrs is → UnitYields s is
    prefetch_instructions-refines s is ok instrs =
        let unit = unit-found s s.hart.pc is ok ok.pc_word instrs in
        record { blocks = unit.blocks; is_found = unit.is_found; outcome = unit.rest s refl ok }
