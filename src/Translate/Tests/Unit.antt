-- ===== src/Translate/Tests/Unit.antt =====
-- A unit of three instructions, the last of which jumps.
use hyrule.Prelude.{List, ◌∷◌, [], arith}
use hyrule.Rv
use hyrule.Rv.Encode.{IsInstr, imm_bound}
use hyrule.Translate.Unit.Spec.{AreInstrs}
use hyrule.Translate.Unit.Refines.{prefetch_instructions-refines, UnitYields}
use hyrule.Translate.Tests.{host, hart-IsHart, cpu, host-HostFits, no_others, cell-IsMmu}

-- addi x3, x3, -1; sw x2, 0(x3); jal x0, -8
abbrev program : List Rv.Instr
program = Rv.op_imm Rv.addi 3 3 0xfff ∷ Rv.store Rv.sw 3 2 0 ∷ Rv.jal 0 0xffffc ∷ []

program-AreInstrs : AreInstrs program
unfolding IsInstr imm_bound
program-AreInstrs = (
  (omega arith, omega arith, omega arith),
  ((omega arith, omega arith, omega arith), ((omega arith, omega arith), record {})),
)

prefetch_instructions-refines_example :
    UnitYields host cell-IsMmu no_others host-HostFits cpu program
prefetch_instructions-refines_example =
    prefetch_instructions-refines host cell-IsMmu no_others host-HostFits cpu program hart-IsHart
      program-AreInstrs
