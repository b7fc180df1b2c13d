-- ===== src/Host/Instr.antt =====
-- The instructions that the inline assembly of sandbox/translate_*.c uses, and the macros of
-- sandbox/translation.h among them. The operands stand in the order of the source.
use hyrule.Prelude.{ℕ, ◌+◌, ◌-◌, ◌*◌, ◌/◌, ◌%◌, ◌^◌, Bool, false, ltb, ◌==◌, if◌then◌else◌}
use hyrule.Prelude.{bit_and, bit_or, bit_xor}
use hyrule.Host.Cpu.{Reg}

pub data Alu : Type 0 where
  add sub band bor bxor : Alu

pub data Shift : Type 0 where
  shl shr sar : Shift

-- The conditions of the jumps and `set` instructions: e, ne, l, ge, b, ae.
pub data Cond : Type 0 where
  equal not_equal less greater_equal below above_equal : Cond

-- The functions of sandbox/mmu.c that a block calls.
pub data Callee : Type 0 where
  mmu_read8 mmu_read16 mmu_read32 mmu_write8 mmu_write16 mmu_write32 : Callee

-- Operands stand in the order of the source: the destination is last.
pub data Instr : Type 0 where
  movl_param : ℕ → Reg → Instr
  movl_imm : ℕ → Reg → Instr
  movl : Reg → Reg → Instr
  shl_imm : ℕ → Reg → Instr
  shrq_imm : ℕ → Reg → Instr
  addq_r15 : Reg → Instr
  movl_load : Reg → Reg → Instr
  movl_store : Reg → Reg → Instr
  load_pc : Reg → Instr
  store_pc : Reg → Instr
  alu : Alu → Reg → Reg → Instr
  alu_imm : Alu → ℕ → Reg → Instr
  shift_cl : Shift → Reg → Instr
  cmpl : Reg → Reg → Instr
  cmpl_param : ℕ → Reg → Instr
  cmpl_imm : ℕ → Reg → Instr
  set_low : Cond → Reg → Instr
  movzbl movsbl movzwl movswl movsxd : Reg → Reg → Instr
  btr_zero : Reg → Instr
  imull mull idivl divl : Reg → Instr
  imulq : Reg → Instr
  jcc : Cond → ℕ → Instr
  jmp label : ℕ → Instr
  call : Callee → Instr
  reset_zero_register proceed_to_next_instruction : Instr
  end_instruction trap_to_vmm : Instr

-- How a block ends: into the next block, into the monitor, or by a fault of the host.
pub data Outcome (A : Type 0) : Type 0 where
  proceed : A → Outcome A
  trap : A → Outcome A
  fault : Outcome A

pub data Next (A : Type 0) : Type 0 where
  next : A → Next A
  jump : ℕ → A → Next A
  halt : Outcome A → Next A

abbrev pub alu_value : Alu → ℕ → ℕ → ℕ
alu_value add src dst = (dst + src) % 2 ^ 32
alu_value sub src dst = (dst + 2 ^ 32 - src) % 2 ^ 32
alu_value band src dst = bit_and dst src
alu_value bor src dst = bit_or dst src
alu_value bxor src dst = bit_xor dst src

-- The count has been masked to five bits. `sar` fills with the sign.
abbrev pub shift_value : Shift → ℕ → ℕ → ℕ
shift_value shl k x = x * 2 ^ k % 2 ^ 32
shift_value shr k x = x / 2 ^ k
shift_value sar k x = if ltb x (2 ^ 31) then x / 2 ^ k else 2 ^ 32 - 1 - (2 ^ 32 - 1 - x) / 2 ^ k

-- Where a jump ends.
abbrev pub arrived : ℕ → Instr → Bool
arrived n (label m) = n == m
arrived n _ = false
