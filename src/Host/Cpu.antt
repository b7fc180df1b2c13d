-- ===== src/Host/Cpu.antt =====
-- The host's registers, flags and the words of memory that a translated block reaches.
-- r15 and r14 hold the addresses of `hart->registers` and `hart->pc`, as `vmresume` of
-- sandbox/translation.c leaves them; no block writes them, so they are part of the environment.
use hyrule.Prelude.{ℕ, ◌+◌, ◌≤◌, ◌-◌, ◌/◌, ◌%◌, ◌^◌, Bool, List, Option, none, some}
use hyrule.Prelude.{ltb, ◌==◌, if◌then◌else◌, get_or, set}
use hyrule.Hart.{Hart, Mmu}

pub data Reg : Type 0 where
  rax rbx rcx rdx rsi rdi r8 : Reg

-- 64-bit registers as numbers, and the flags that a comparison sets.
pub record Cpu (M : Type 0) : Type 0 where
  pub rax : ℕ
  pub rbx : ℕ
  pub rcx : ℕ
  pub rdx : ℕ
  pub rsi : ℕ
  pub rdi : ℕ
  pub r8 : ℕ
  pub zf : Bool
  pub cf : Bool
  pub sf : Bool
  pub of : Bool
  pub hart : Hart M

-- `base` is r15. `params` are the words behind the block, which `COMMIT_TRANSLATION` fills in and
-- `PIC_PARAM` reads. `junk` is what a call leaves in a register that the callee may change.
pub record Env (M : Type 0) : Type 0 where
  pub base : ℕ
  pub params : List ℕ
  pub mmu : Mmu M
  pub junk : Reg → ℕ

-- The structure does not wrap round the end of the address space.
abbrev pub Fits : {M : Type 0} → Env M → Type 0
Fits env = env.base + 132 ≤ 2 ^ 64

module _ {M : Type 0} where
  abbrev pub get : Reg → Cpu M → ℕ
  get Reg.rax s = s.rax
  get Reg.rbx s = s.rbx
  get Reg.rcx s = s.rcx
  get Reg.rdx s = s.rdx
  get Reg.rsi s = s.rsi
  get Reg.rdi s = s.rdi
  get Reg.r8 s = s.r8

  abbrev pub put : Reg → ℕ → Cpu M → Cpu M
  put Reg.rax v s = record s { rax = v }
  put Reg.rbx v s = record s { rbx = v }
  put Reg.rcx v s = record s { rcx = v }
  put Reg.rdx v s = record s { rdx = v }
  put Reg.rsi v s = record s { rsi = v }
  put Reg.rdi v s = record s { rdi = v }
  put Reg.r8 v s = record s { r8 = v }

  -- The low half of a register; a write of 32 bits clears the high half.
  abbrev pub get32 : Reg → Cpu M → ℕ
  get32 r s = get r s % 2 ^ 32

  abbrev pub put32 : Reg → ℕ → Cpu M → Cpu M
  put32 r v s = put r (v % 2 ^ 32) s

  abbrev pub param : Env M → ℕ → ℕ
  param e k = get_or e.params k 0

  -- The 32-bit word at an address inside `struct hart`: 32 registers, then the pc.
  unfoldable pub load_word : ℕ → Hart M → ℕ → Option ℕ
  load_word base h a =
      if ltb a base
      then none
      else if (a - base) % 4 == 0
      then if ltb ((a - base) / 4) 32
        then some (get_or h.regs ((a - base) / 4) 0)
        else if (a - base) / 4 == 32
        then some h.pc
        else none
      else none

  unfoldable pub store_word : ℕ → Hart M → ℕ → ℕ → Option (Hart M)
  store_word base h a v =
      if ltb a base
      then none
      else if (a - base) % 4 == 0
      then if ltb ((a - base) / 4) 32
        then some (record h { regs = set h.regs ((a - base) / 4) v })
        else if (a - base) / 4 == 32
        then some (record h { pc = v })
        else none
      else none
