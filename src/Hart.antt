-- ===== src/Hart.antt =====
-- sandbox/hart.h, hart_def.h and mmu.h: the part of `struct hart` that translated code works on.
-- `regs` is `registers`, 32 words of which word 0 is `zero`; `pc` stands right behind them in the
-- structure; `guest` is the guest's memory, which is reached through `native_vmptr`.
use hyrule.Prelude.{ℕ, ◌^◌, ◌<◌, ◌≡◌, List, length, get_or, Option, some}

pub record Hart (M : Type 0) : Type 0 where
  pub regs : List ℕ
  pub pc : ℕ
  pub guest : M

-- What translated code asks of sandbox/mmu.c. `none` is a call that does not return to the caller:
-- no region holds the address, and the process exits, or an exception is raised.
pub record Mmu (M : Type 0) : Type 0 where
  pub read8 : M → ℕ → Option ℕ
  pub read16 : M → ℕ → Option ℕ
  pub read32 : M → ℕ → Option ℕ
  pub write8 : M → ℕ → ℕ → Option M
  pub write16 : M → ℕ → ℕ → Option M
  pub write32 : M → ℕ → ℕ → Option M

-- Every register and the program counter hold a 32-bit word, and register 0 holds zero.
pub record IsHart {M : Type 0} (h : Hart M) : Type 0 where
  pub count : length h.regs ≡ 32
  pub words : (i : ℕ) → get_or h.regs i 0 < 2 ^ 32
  pub zero_reg : get_or h.regs 0 0 ≡ 0
  pub pc_word : h.pc < 2 ^ 32

-- `uint8_t`, `uint16_t` and `uint32_t` results.
pub record IsMmu {M : Type 0} (mmu : Mmu M) : Type 0 where
  pub byte : (g : M) (a v : ℕ) → mmu.read8 g a ≡ some v → v < 2 ^ 8
  pub half : (g : M) (a v : ℕ) → mmu.read16 g a ≡ some v → v < 2 ^ 16
  pub word : (g : M) (a v : ℕ) → mmu.read32 g a ≡ some v → v < 2 ^ 32
