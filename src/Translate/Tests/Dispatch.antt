-- ===== src/Translate/Tests/Dispatch.antt =====
-- Instructions fetched, found in the table and run.
use hyrule.Prelude.{◌≡◌, refl, arith, true, false}
use hyrule.Host.Instr.{fault}
use hyrule.Rv.{execute}
use hyrule.Rv
use hyrule.Rv.Encode.{encode, IsInstr}
use hyrule.Translate.Block.{Yields, execute_block}
use hyrule.Translate.Dispatch.{translate}
use hyrule.Translate.Dispatch.Table.{ends_unit}
use hyrule.Translate.Dispatch.Refines.{translate-refines, translate-faults, instr_faults}
use hyrule.Translate.Dispatch.Invariant.{translate-Keeps}
use hyrule.Rv.Invariant.{Keeps}
use hyrule.Translate.MulDiv.Refines.{host_faults}
use hyrule.Word.Division.{overflows}
use hyrule.Translate.Tests.{
  cell, cell-IsMmu, host, hart, hart-IsHart, cpu, host-HostFits, no_others,
}

-- div x4, x3, x2: 12 / -1
abbrev division : Rv.Instr
division = Rv.mul_div Rv.div 4 3 2

division-IsInstr : IsInstr division
unfolding IsInstr
division-IsInstr = (omega arith, omega arith, omega arith)

division_fine : instr_faults division hart ≡ false
unfolding instr_faults host_faults overflows
division_fine = refl

translate-refines_example :
    Yields host cpu
      (translate no_others 0x1000 (encode division))
      (ends_unit division)
      (execute cell division hart)
translate-refines_example =
    translate-refines no_others host cpu host-HostFits hart-IsHart division division-IsInstr
      cell-IsMmu division_fine

-- rem x4, x1, x2: -2^31 % -1
abbrev remainder : Rv.Instr
remainder = Rv.mul_div Rv.rem 4 1 2

remainder-IsInstr : IsInstr remainder
unfolding IsInstr
remainder-IsInstr = (omega arith, omega arith, omega arith)

remainder_faults : instr_faults remainder hart ≡ true
unfolding instr_faults host_faults overflows
remainder_faults = refl

translate-faults_example :
    Yields host cpu (translate no_others 0x1000 (encode remainder)) false fault
translate-faults_example =
    translate-faults no_others host cpu host-HostFits hart-IsHart remainder remainder-IsInstr
      remainder_faults

-- The block of `jal x1, -4` found by the table.
abbrev jump : Rv.Instr
jump = Rv.jal 1 0xffffe

jump-IsInstr : IsInstr jump
unfolding IsInstr
jump-IsInstr = (omega arith, omega arith)

jump_fine : instr_faults jump hart ≡ false
unfolding instr_faults
jump_fine = refl

jump_yields :
    Yields host cpu
      (translate no_others 0x1000 (encode jump))
      (ends_unit jump)
      (execute cell jump hart)
jump_yields =
    translate-refines no_others host cpu host-HostFits hart-IsHart jump jump-IsInstr cell-IsMmu
      jump_fine

translate-Keeps_example : Keeps (execute_block host jump_yields.block cpu)
translate-Keeps_example =
    translate-Keeps no_others host cpu host-HostFits hart-IsHart jump jump_yields.block jump-IsInstr
      cell-IsMmu jump_yields.is_found
