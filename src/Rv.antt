-- ===== src/Rv.antt =====
-- The specification that the translated code is held to: the RV32IM instructions that
-- sandbox/translation.c and sandbox/translate_*.c accept, as steps on a hart, after the RISC-V
-- manual. Nothing here is taken from the translator. Words are patterns of 32 bits.
pub mod Format
pub mod Encode
pub mod Invariant
use hyrule.Prelude.{ℕ, ◌+◌, ◌-◌, ◌*◌, ◌/◌, ◌%◌, ◌^◌, ◌≤◌, ◌<◌, Bool, not}
use hyrule.Prelude.{Option, none, some, ltb, ◌==◌, if◌then◌else◌, get_or, set}
use hyrule.Prelude.{bit_and, bit_or, bit_xor}
use hyrule.Prelude.Int.{ℤ, pos, negsuc, ◌*ℤ◌, ltb_ℤ, div_floor, quot}
use hyrule.Prelude.Int
use hyrule.Word.{signed32, word, extend}
use mathlib.Core.Option
use hyrule.Hart.{Hart, Mmu}
use hyrule.Host.Instr.{Outcome, proceed, trap, fault}

pub data Op : Type 0 where
  add sub sll slt sltu xor srl sra or and : Op

pub data MulOp : Type 0 where
  mul mulh mulhsu mulhu div divu rem remu : MulOp

pub data ImmOp : Type 0 where
  addi slti sltiu xori ori andi slli srli srai : ImmOp

pub data BranchOp : Type 0 where
  beq bne blt bge bltu bgeu : BranchOp

pub data LoadOp : Type 0 where
  lb lh lw lbu lhu : LoadOp

pub data StoreOp : Type 0 where
  sb sh sw : StoreOp

-- Immediates are the bit fields of the encoding: 20 bits of `lui`, `auipc` and `jal`, 12 of the
-- others; of `jal` and the branches they are the offset without its lowest bit, which is zero.
pub data Instr : Type 0 where
  lui : ℕ → ℕ → Instr
  auipc : ℕ → ℕ → Instr
  jal : ℕ → ℕ → Instr
  jalr : ℕ → ℕ → ℕ → Instr
  branch : BranchOp → ℕ → ℕ → ℕ → Instr
  load : LoadOp → ℕ → ℕ → ℕ → Instr
  store : StoreOp → ℕ → ℕ → ℕ → Instr
  op_imm : ImmOp → ℕ → ℕ → ℕ → Instr
  op : Op → ℕ → ℕ → ℕ → Instr
  mul_div : MulOp → ℕ → ℕ → ℕ → Instr

abbrev pub truth : Bool → ℕ
truth b = if b then 1 else 0

unfoldable pub op_value : Op → ℕ → ℕ → ℕ
op_value add x y = (x + y) % 2 ^ 32
op_value sub x y = (x + 2 ^ 32 - y) % 2 ^ 32
op_value sll x y = x * 2 ^ (y % 32) % 2 ^ 32
op_value slt x y = truth (ltb_ℤ (signed32 x) (signed32 y))
op_value sltu x y = truth (ltb x y)
op_value xor x y = bit_xor x y
op_value srl x y = x / 2 ^ (y % 32)
op_value sra x y = word (div_floor (signed32 x) (2 ^ (y % 32)))
op_value or x y = bit_or x y
op_value and x y = bit_and x y

-- Division by zero gives all ones and leaves the dividend; the one overflow wraps.
unfoldable pub mul_value : MulOp → ℕ → ℕ → ℕ
mul_value mul x y = x * y % 2 ^ 32
mul_value mulh x y = word (div_floor (signed32 x *ℤ signed32 y) (2 ^ 32))
mul_value mulhsu x y = word (div_floor (signed32 x *ℤ pos y) (2 ^ 32))
mul_value mulhu x y = x * y / 2 ^ 32
mul_value div x y = if y == 0 then 2 ^ 32 - 1 else word (quot (signed32 x) (signed32 y))
mul_value divu x y = if y == 0 then 2 ^ 32 - 1 else x / y
mul_value rem x y = if y == 0 then x else word (Int.rem (signed32 x) (signed32 y))
mul_value remu x y = if y == 0 then x else x % y

-- The 12-bit immediate is extended by its sign; the shifts take five bits of it.
unfoldable pub imm_value : ImmOp → ℕ → ℕ → ℕ
imm_value addi x imm = op_value add x (extend 12 imm)
imm_value slti x imm = op_value slt x (extend 12 imm)
imm_value sltiu x imm = op_value sltu x (extend 12 imm)
imm_value xori x imm = op_value xor x (extend 12 imm)
imm_value ori x imm = op_value or x (extend 12 imm)
imm_value andi x imm = op_value and x (extend 12 imm)
imm_value slli x imm = op_value sll x imm
imm_value srli x imm = op_value srl x imm
imm_value srai x imm = op_value sra x imm

unfoldable pub taken : BranchOp → ℕ → ℕ → Bool
taken beq x y = x == y
taken bne x y = not (x == y)
taken blt x y = ltb_ℤ (signed32 x) (signed32 y)
taken bge x y = not (ltb_ℤ (signed32 x) (signed32 y))
taken bltu x y = ltb x y
taken bgeu x y = not (ltb x y)

module _ {M : Type 0} where
  abbrev pub reg : Hart M → ℕ → ℕ
  reg h i = get_or h.regs i 0

  -- Register 0 cannot be written.
  abbrev pub write_reg : ℕ → ℕ → Hart M → Hart M
  write_reg rd v h = if rd == 0 then h else record h { regs = set h.regs rd v }

  abbrev pub set_pc : ℕ → Hart M → Hart M
  set_pc target h = record h { pc = target % 2 ^ 32 }

  abbrev pub advance : Hart M → Hart M
  advance h = set_pc (h.pc + 4) h

  abbrev pub finish_load : ℕ → Option ℕ → Hart M → Outcome (Hart M)
  finish_load rd none h = fault
  finish_load rd (some v) h = proceed (advance (write_reg rd v h))

  abbrev pub load_value : Mmu M → LoadOp → M → ℕ → Option ℕ
  load_value mmu lb g a = Option.map (extend 8) (mmu.read8 g a)
  load_value mmu lh g a = Option.map (extend 16) (mmu.read16 g a)
  load_value mmu lw g a = mmu.read32 g a
  load_value mmu lbu g a = mmu.read8 g a
  load_value mmu lhu g a = mmu.read16 g a

  abbrev pub finish_store : Option M → Hart M → Outcome (Hart M)
  finish_store none h = fault
  finish_store (some g) h = proceed (advance (record h { guest = g }))

  abbrev pub store_value : Mmu M → StoreOp → M → ℕ → ℕ → Option M
  store_value mmu sb g a v = mmu.write8 g a (v % 2 ^ 8)
  store_value mmu sh g a v = mmu.write16 g a (v % 2 ^ 16)
  store_value mmu sw g a v = mmu.write32 g a v

  abbrev pub address : Hart M → ℕ → ℕ → ℕ
  address h rs1 imm = (reg h rs1 + extend 12 imm) % 2 ^ 32

  -- One instruction on a hart. `trap` is a return to the monitor with the new pc.
  unfoldable pub execute : Mmu M → Instr → Hart M → Outcome (Hart M)
  execute mmu (lui rd imm) h = proceed (advance (write_reg rd (imm * 2 ^ 12) h))
  execute mmu (auipc rd imm) h = proceed (advance (write_reg rd ((h.pc + imm * 2 ^ 12) % 2 ^ 32) h))
  execute mmu (jal rd imm) h =
      trap (set_pc (h.pc + extend 21 (2 * imm)) (write_reg rd ((h.pc + 4) % 2 ^ 32) h))
  execute mmu (jalr rd rs1 imm) h =
      trap (set_pc (address h rs1 imm / 2 * 2) (write_reg rd ((h.pc + 4) % 2 ^ 32) h))
  execute mmu (branch o rs1 rs2 imm) h =
      trap (
        if taken o (reg h rs1) (reg h rs2)
        then set_pc (h.pc + extend 13 (2 * imm)) h
        else advance h)
  execute mmu (load o rd rs1 imm) h =
      finish_load rd (load_value mmu o h.guest (address h rs1 imm)) h
  execute mmu (store o rs1 rs2 imm) h =
      finish_store (store_value mmu o h.guest (address h rs1 imm) (reg h rs2)) h
  execute mmu (op_imm o rd rs1 imm) h =
      proceed (advance (write_reg rd (imm_value o (reg h rs1) imm) h))
  execute mmu (op o rd rs1 rs2) h =
      proceed (advance (write_reg rd (op_value o (reg h rs1) (reg h rs2)) h))
  execute mmu (mul_div o rd rs1 rs2) h =
      proceed (advance (write_reg rd (mul_value o (reg h rs1) (reg h rs2)) h))
