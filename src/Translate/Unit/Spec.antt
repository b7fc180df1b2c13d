-- ===== src/Translate/Unit/Spec.antt =====
-- The specification of a unit: its instructions one after the other, and where each one leaves the pc.
use hyrule.Prelude.{ℕ, ◌+◌, ◌%◌, ◌^◌, ◌≡◌, refl, ap, arith, true, false}
use hyrule.Prelude.{List, [], ◌∷◌, Option, none, some, if◌then◌else◌}
use hyrule.Hart.{Hart, Mmu}
use hyrule.Host.Instr.{Outcome, proceed, trap, fault}
use hyrule.Rv.{
  execute, write_reg, advance, finish_load, finish_store, load_value, store_value, address, reg,
}
use hyrule.Rv
use hyrule.Rv.Encode.{IsInstr}
use hyrule.Translate.Dispatch.Table.{ends_unit}
use hyrule.Translate.Dispatch.Refines.{instr_faults}
use hyrule.Translate.Unit.{and_then}

-- The specification, but with the host's fault where its division has no result.
abbrev pub execute_or_fault : {M : Type 0} → Mmu M → Rv.Instr → Hart M → Outcome (Hart M)
execute_or_fault mmu i h = if instr_faults i h then fault else execute mmu i h

-- One instruction after the other; behind the last, and after a jump, the monitor goes on.
unfoldable pub execute_unit : {M : Type 0} → Mmu M → List Rv.Instr → Hart M → Outcome (Hart M)
execute_unit mmu [] h = trap h
execute_unit mmu (i ∷ is) h = and_then (execute_or_fault mmu i h) (execute_unit mmu is)

abbrev pub AreInstrs : List Rv.Instr → Type 0
AreInstrs [] = Unit
AreInstrs (i ∷ is) = IsInstr i × AreInstrs is

module _ {M : Type 0} where
  -- An instruction that does not end the unit leaves the pc at the next one.
  abbrev pub Follows : ℕ → Outcome (Hart M) → Type 0
  Follows pc (proceed h) = h.pc ≡ (pc + 4) % 2 ^ 32
  Follows pc (trap h) = Unit
  Follows pc fault = Unit

  -- An instruction that ends the unit does not fall into the next block.
  abbrev pub Leaves : Outcome (Hart M) → Type 0
  Leaves (proceed h) = ⊥
  Leaves (trap h) = Unit
  Leaves fault = Unit

  write_reg-pc : (rd v : ℕ) (h : Hart M) → (write_reg rd v h).pc ≡ h.pc
  write_reg-pc rd v h = ground arith

  moves_on : (rd v : ℕ) (h : Hart M) → ((write_reg rd v h).pc + 4) % 2 ^ 32 ≡ (h.pc + 4) % 2 ^ 32
  moves_on rd v h = ap (λ (a : ℕ). (a + 4) % 2 ^ 32) (write_reg-pc rd v h)

  finish_load-Follows : (rd : ℕ) (o : Option ℕ) (h : Hart M) → Follows h.pc (finish_load rd o h)
  finish_load-Follows rd none h = record {}
  finish_load-Follows rd (some v) h = moves_on rd v h

  finish_store-Follows : (o : Option M) (h : Hart M) → Follows h.pc (finish_store o h)
  finish_store-Follows none h = record {}
  finish_store-Follows (some g) h = refl

  pub execute-Follows : (mmu : Mmu M) (i : Rv.Instr) (h : Hart M) → Follows h.pc (execute mmu i h)
  unfolding execute
  execute-Follows mmu (Rv.lui rd imm) h = moves_on rd _ h
  execute-Follows mmu (Rv.auipc rd imm) h = moves_on rd _ h
  execute-Follows mmu (Rv.jal rd imm) h = record {}
  execute-Follows mmu (Rv.jalr rd rs1 imm) h = record {}
  execute-Follows mmu (Rv.branch o rs1 rs2 imm) h = record {}
  execute-Follows mmu (Rv.load o rd rs1 imm) h =
      finish_load-Follows rd (load_value mmu o h.guest (address h rs1 imm)) h
  execute-Follows mmu (Rv.store o rs1 rs2 imm) h =
      finish_store-Follows (store_value mmu o h.guest (address h rs1 imm) (reg h rs2)) h
  execute-Follows mmu (Rv.op_imm o rd rs1 imm) h = moves_on rd _ h
  execute-Follows mmu (Rv.op o rd rs1 rs2) h = moves_on rd _ h
  execute-Follows mmu (Rv.mul_div o rd rs1 rs2) h = moves_on rd _ h

  pub execute-Leaves :
      (mmu : Mmu M) (i : Rv.Instr) (h : Hart M) → ends_unit i ≡ true → Leaves (execute mmu i h)
  unfolding execute ends_unit
  execute-Leaves mmu (Rv.jal rd imm) h e = record {}
  execute-Leaves mmu (Rv.jalr rd rs1 imm) h e = record {}
  execute-Leaves mmu (Rv.branch o rs1 rs2 imm) h e = record {}
  execute-Leaves mmu _ h e = absurd (ground arith)

pub faults-ends_unit :
    {M : Type 0} (i : Rv.Instr) (h : Hart M) → instr_faults i h ≡ true → ends_unit i ≡ false
unfolding instr_faults ends_unit
faults-ends_unit (Rv.mul_div o rd rs1 rs2) h e = refl
faults-ends_unit _ h e = absurd (ground arith)
