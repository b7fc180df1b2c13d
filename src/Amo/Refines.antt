-- ===== src/Amo/Refines.antt =====
-- The atomic memory operations against the manual.
use hyrule.Prelude.{ℕ, zero, suc, ◌+◌, ◌%◌, ◌^◌, ◌<◌, ◌≡◌, refl, ap, arith}
use hyrule.Prelude.{Option, none, some, inl, inr, List, [], ◌∷◌, length, max}
use hyrule.Prelude.{
  ◌==◌, ltb, if◌then◌else◌, get_or, set, bit_and, bit_or, bit_xor, Option-cases, Bool-cases,
}
use hyrule.Hart.{Hart, Mmu, IsHart}
use hyrule.Rv.{reg, write_reg, advance}
use hyrule.Translate.Finish.{write_reg-set}
use hyrule.Amo.{
  AmoState, amo_instruction_slowpath, amo_instruction, amoadd_slowpath, amoswap_slowpath,
  amoxor_slowpath, amoor_slowpath, amoand_slowpath, amomaxu_slowpath, read_modify_write,
}

pub data AmoOp : Type 0 where
  amoswap amoadd amoxor amoand amoor amomaxu : AmoOp

-- The code in the highest five bits of the word.
abbrev pub funct5_of : AmoOp → ℕ
funct5_of amoadd = 0x0
funct5_of amoswap = 0x1
funct5_of amoxor = 0x4
funct5_of amoor = 0x8
funct5_of amoand = 0xc
funct5_of amomaxu = 0x1c

-- The word that is stored, from the one in memory and the operand.
abbrev pub amo_value : AmoOp → ℕ → ℕ → ℕ
amo_value amoswap m x = x
amo_value amoadd m x = (m + x) % 2 ^ 32
amo_value amoxor m x = bit_xor m x
amo_value amoand m x = bit_and m x
amo_value amoor m x = bit_or m x
amo_value amomaxu m x = max m x

module _ {M : Type 0} (mmu : Mmu M) where
  abbrev finish_amo : ℕ → ℕ → Hart M → Option M → Option (Hart M)
  finish_amo rd m h none = none
  finish_amo rd m h (some g) = some (advance (write_reg rd m (record h { guest = g })))

  abbrev amo_on : AmoOp → ℕ → ℕ → ℕ → Hart M → Option ℕ → Option (Hart M)
  amo_on o rd a x h none = none
  amo_on o rd a x h (some m) = finish_amo rd m h (mmu.write32 h.guest a (amo_value o m x))

  -- The word at an aligned address goes to the destination register, and the result to memory.
  abbrev pub execute_amo : AmoOp → ℕ → ℕ → ℕ → Hart M → Option (Hart M)
  execute_amo o rs1 rs2 rd h =
      if reg h rs1 % 4 == 0
      then amo_on o rd (reg h rs1) (reg h rs2) h (mmu.read32 h.guest (reg h rs1))
      else none

  abbrev pub hart_of : Option (AmoState M) → Option (Hart M)
  hart_of none = none
  hart_of (some s) = some s.hart

  get_or-set : (xs : List ℕ) (i v : ℕ) → i < length xs → get_or (set xs i v) i 0 ≡ v
  get_or-set [] i v lt = absurd (omega arith)
  get_or-set (x ∷ xs) zero v lt = refl
  get_or-set (x ∷ xs) (suc i) v lt = get_or-set xs i v (omega arith)

  abbrev modify_of : AmoOp → ℕ → ℕ → ℕ
  modify_of amoadd = λ rd rs2. (rd + rs2) % 2 ^ 32
  modify_of amoswap = λ rd rs2. rs2
  modify_of amoxor = bit_xor
  modify_of amoor = bit_or
  modify_of amoand = bit_and
  modify_of amomaxu = λ rd rs2. if ltb rs2 rd then rd else rs2

  dispatches :
      (o : AmoOp) (s : AmoState M) (rs1 rs2 rd : ℕ)
      → amo_instruction_slowpath mmu s rs1 rs2 rd (funct5_of o)
        ≡ read_modify_write mmu (modify_of o) s rs1 rs2 rd
  unfolding amo_instruction_slowpath amoadd_slowpath amoswap_slowpath amoxor_slowpath amoor_slowpath
      amoand_slowpath amomaxu_slowpath
  dispatches amoadd s rs1 rs2 rd = refl
  dispatches amoswap s rs1 rs2 rd = refl
  dispatches amoxor s rs1 rs2 rd = refl
  dispatches amoor s rs1 rs2 rd = refl
  dispatches amoand s rs1 rs2 rd = refl
  dispatches amomaxu s rs1 rs2 rd = refl

  modifies : (o : AmoOp) (m x : ℕ) → modify_of o m x ≡ amo_value o m x
  modifies amoadd m x = refl
  modifies amoswap m x = refl
  modifies amoxor m x = refl
  modifies amoor m x = refl
  modifies amoand m x = refl
  modifies amomaxu m x = ground arith

  -- The registers and the memory that are left, in the terms of the manual.
  finished :
      (s : AmoState M) (rd m : ℕ) (g : M)
      → IsHart s.hart
      → record s.hart {
        regs = set (set s.hart.regs rd m) 0 0;
        pc = (s.hart.pc + 4) % 2 ^ 32;
        guest = g;
      }
        ≡ advance (write_reg rd m (record s.hart { guest = g }))
  finished s rd m g ok = ap advance (
      write_reg-set {h = record s.hart { guest = g }} rd m (record {
        count = ok.count;
        words = ok.words;
        zero_reg = ok.zero_reg;
        pc_word = ok.pc_word;
      }))

  -- For amoswap, amoadd, amoxor, amoand, amoor and amomaxu, on a well-formed hart and with a
  -- destination register below 32: the slow path behind the instruction's code, with the clearing of
  -- register 0 and the move of the pc behind it, leaves the hart that the manual asks for, with the
  -- word from memory in the destination register and the result in memory, and does not return where
  -- the address is misaligned or the memory does not answer.
  pub amo_instruction-refines :
      (o : AmoOp) (s : AmoState M) (rs1 rs2 rd : ℕ)
      → IsHart s.hart
      → rd < 32
      → hart_of (amo_instruction mmu s rs1 rs2 rd (funct5_of o)) ≡ execute_amo o rs1 rs2 rd s.hart
  unfolding amo_instruction
  amo_instruction-refines o s rs1 rs2 rd ok lt =
      rw (dispatches o s rs1 rs2 rd) (elim (Bool-cases (reg s.hart rs1 % 4 == 0)) [
        | inr misaligned ↦ rw misaligned refl
        | inl aligned ↦ elim (Option-cases (mmu.read32 s.hart.guest (reg s.hart rs1))) [
          | inl unread ↦ rw (aligned, unread) refl
          | inr (m, read) ↦
              let value = modifies o m (reg s.hart rs2) in
              let here = get_or-set s.hart.regs rd m (omega (arith, ok.count)) in
              elim (Option-cases
                (mmu.write32 s.hart.guest (reg s.hart rs1) (amo_value o m (reg s.hart rs2)))) [
                  | inl unwritten ↦ rw (aligned, read, here, value, unwritten) refl
                  | inr (g, written) ↦
                      rw (aligned, read, here, value, written) (ap some (finished s rd m g ok))
                ]
        ]
      ])
