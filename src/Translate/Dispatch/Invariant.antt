-- ===== src/Translate/Dispatch/Invariant.antt =====
-- What translated code leaves of the hart: the registers and the pc stay words, and register 0 zero.
use hyrule.Prelude.{Bool, ◌≡◌, sym, ◌∙◌, Bool-cases, Option, some, inl, inr}
use hyrule.Prelude.{some-injective}
use mathlib.Core.Path.{subst}
use hyrule.Hart.{IsHart, IsMmu}
use hyrule.Host.Cpu.{Cpu}
use hyrule.Host.Instr.{Outcome}
use hyrule.Hart.{Hart}
use hyrule.Rv.{execute}
use hyrule.Rv
use hyrule.Rv.Encode.{encode, IsInstr}
use hyrule.Rv.Invariant.{Keeps, execute-IsHart}
use hyrule.Translate.Block.{Block, Host, HostFits, Yields, execute_block}
use hyrule.Translate.Dispatch.{OtherTranslators, translate}
use hyrule.Translate.Dispatch.Refines.{translate-refines, translate-faults, instr_faults}

module _ {M : Type 0} (m : Host M) (s : Cpu M) where
  yields-Keeps :
      {found : Option Block} {stops : Bool} {q : Outcome (Hart M)} (b : Block)
      → Yields m s found stops q
      → found ≡ some b
      → Keeps q
      → Keeps (execute_block m b s)
  yields-Keeps {q} b y e keeps =
      subst (λ c. Keeps (execute_block m c s)) (some-injective y.block b (sym y.is_found ∙ e))
        (subst Keeps (sym y.outcome) keeps)

module _ {M : Type 0} (others : OtherTranslators) (m : Host M) (s : Cpu M) (fits : HostFits m)
    (ok : IsHart s.hart) where
  -- Whatever block the table finds for the word of an instruction whose fields have their widths,
  -- run in a well-formed hart on a host whose hart structure does not wrap round the address space
  -- with reads that have their widths: it leaves a well-formed hart (32 registers and a pc of 32
  -- bits, register 0 zero) to the next block or to the monitor, or ends in a fault.
  pub translate-Keeps :
      (i : Rv.Instr) (b : Block)
      → IsInstr i
      → IsMmu m.mmu
      → translate others s.hart.pc (encode i) ≡ some b
      → Keeps (execute_block m b s)
  translate-Keeps i b widths mmu e = elim (Bool-cases (instr_faults i s.hart)) [
    | inl faults ↦
        yields-Keeps m s b (translate-faults others m s fits ok i widths faults) e (record {})
    | inr fine ↦
        yields-Keeps m s b (translate-refines others m s fits ok i widths mmu fine) e
          (execute-IsHart m.mmu mmu i s.hart widths ok)
  ]
