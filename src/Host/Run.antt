-- ===== src/Host/Run.antt =====
-- The execution of a block, instruction by instruction. Its labels are local and every jump goes
-- forward. `END_INSTRUCTION` jumps to the next block, `TRAP_TO_VMM` to the monitor.
use hyrule.Prelude.{ℕ, ◌+◌, ◌-◌, ◌*◌, ◌/◌, ◌%◌, ◌^◌, Bool, not, ◌&&◌, ◌||◌, xor}
use hyrule.Prelude.{List, [], ◌∷◌, Option, none, some, ltb, leb, ◌==◌, if◌then◌else◌, set}
use hyrule.Prelude.Int.{pos, negsuc, ◌*ℤ◌, quot, rem, ltb_ℤ, div_floor}
use hyrule.Hart.{Hart}
use hyrule.Word.{signed32, signed64, word, word64, extend}
use hyrule.Host.Cpu.{Reg, Cpu, Env, get, put, get32, put32, param, load_word, store_word}
use hyrule.Host.Instr.{Cond, equal, not_equal, less, greater_equal, below, above_equal}
use hyrule.Host.Instr.{
  Callee, mmu_read8, mmu_read16, mmu_read32, mmu_write8, mmu_write16, mmu_write32,
}
use hyrule.Host.Instr.{
  Instr, movl_param, movl_imm, movl, shl_imm, shrq_imm, addq_r15, movl_load, movl_store, load_pc,
  store_pc, alu, alu_imm, shift_cl, cmpl, cmpl_param, cmpl_imm, set_low, movzbl, movsbl, movzwl,
  movswl, movsxd, btr_zero, imull, mull, idivl, divl, imulq, jcc, jmp, label, call,
  reset_zero_register, proceed_to_next_instruction, end_instruction, trap_to_vmm,
}
use hyrule.Host.Instr.{Outcome, proceed, trap, fault, Next, next, jump, halt}
use hyrule.Host.Instr.{alu_value, shift_value, arrived}

module _ {M : Type 0} where
  -- The flags of `dst - src` on 32 bits.
  abbrev pub compare_flags : ℕ → ℕ → Cpu M → Cpu M
  compare_flags src dst s =
      let d = (dst + 2 ^ 32 - src) % 2 ^ 32 in
      record s {
        zf = dst == src;
        cf = ltb dst src;
        sf = leb (2 ^ 31) d;
        of = xor (leb (2 ^ 31) dst) (leb (2 ^ 31) src) && xor (leb (2 ^ 31) d) (leb (2 ^ 31) dst);
      }

  abbrev pub holds : Cond → Cpu M → Bool
  holds equal s = s.zf
  holds not_equal s = not s.zf
  holds less s = xor s.sf s.of
  holds greater_equal s = not (xor s.sf s.of)
  holds below s = s.cf
  holds above_equal s = not s.cf

  abbrev pub load_next : Reg → Option ℕ → Cpu M → Next (Cpu M)
  load_next d none s = halt fault
  load_next d (some v) s = next (put d v s)

  abbrev pub store_next : Option (Hart M) → Cpu M → Next (Cpu M)
  store_next none s = halt fault
  store_next (some h) s = next (record s { hart = h })

  -- A call keeps rbx and the stack; the other registers are the callee's.
  abbrev pub after_call : Env M → ℕ → Cpu M → Cpu M
  after_call env v s = record s {
    rax = v;
    rcx = env.junk Reg.rcx;
    rdx = env.junk Reg.rdx;
    rsi = env.junk Reg.rsi;
    rdi = env.junk Reg.rdi;
    r8 = env.junk Reg.r8;
  }

  -- A result of `w` bits; the higher bits of rax are not specified.
  abbrev pub result : Env M → ℕ → ℕ → ℕ
  result env w v = v % 2 ^ w + 2 ^ w * env.junk Reg.rax

  abbrev pub read_next : Env M → ℕ → Option ℕ → Cpu M → Next (Cpu M)
  read_next env w none s = halt fault
  read_next env w (some v) s = next (after_call env (result env w v) s)

  abbrev pub write_next : Env M → Option M → Cpu M → Next (Cpu M)
  write_next env none s = halt fault
  write_next env (some g) s =
      next (after_call env (env.junk Reg.rax) (record s { hart = record s.hart { guest = g } }))

  -- rdi holds the hart, esi the address and edx the value.
  abbrev pub call_next : Env M → Callee → Cpu M → Next (Cpu M)
  call_next env mmu_read8 s = read_next env 8 (env.mmu.read8 s.hart.guest (get32 Reg.rsi s)) s
  call_next env mmu_read16 s = read_next env 16 (env.mmu.read16 s.hart.guest (get32 Reg.rsi s)) s
  call_next env mmu_read32 s = read_next env 32 (env.mmu.read32 s.hart.guest (get32 Reg.rsi s)) s
  call_next env mmu_write8 s =
      write_next env (env.mmu.write8 s.hart.guest (get32 Reg.rsi s) (get32 Reg.rdx s)) s
  call_next env mmu_write16 s =
      write_next env (env.mmu.write16 s.hart.guest (get32 Reg.rsi s) (get32 Reg.rdx s)) s
  call_next env mmu_write32 s =
      write_next env (env.mmu.write32 s.hart.guest (get32 Reg.rsi s) (get32 Reg.rdx s)) s

  -- EDX:EAX as a signed number, divided by a signed 32-bit divisor and rounded towards zero. The
  -- processor faults on a zero divisor and on a quotient outside 32 bits.
  abbrev pub idiv_next : ℕ → ℕ → Cpu M → Next (Cpu M)
  idiv_next dividend divisor s =
      let q = quot (signed64 dividend) (signed32 divisor) in
      let r = rem (signed64 dividend) (signed32 divisor) in
      if (divisor == 0) || ltb_ℤ q (negsuc (2 ^ 31 - 1)) || ltb_ℤ (pos (2 ^ 31 - 1)) q
      then halt fault
      else next (put Reg.rax (word q) (put Reg.rdx (word r) s))

  abbrev pub div_next : ℕ → ℕ → Cpu M → Next (Cpu M)
  div_next dividend divisor s =
      if (divisor == 0) || leb (2 ^ 32) (dividend / divisor)
      then halt fault
      else next (put Reg.rax (dividend / divisor) (put Reg.rdx (dividend % divisor) s))

  -- A 64-bit product split over two registers.
  abbrev pub split_product : ℕ → Cpu M → Cpu M
  split_product p s = put Reg.rax (p % 2 ^ 32) (put Reg.rdx (p / 2 ^ 32) s)

  abbrev pub edx_eax : Cpu M → ℕ
  edx_eax s = get32 Reg.rdx s * 2 ^ 32 + get32 Reg.rax s

  abbrev pub step : Env M → Instr → Cpu M → Next (Cpu M)
  step env (movl_param k d) s = next (put32 d (param env k) s)
  step env (movl_imm v d) s = next (put32 d v s)
  step env (movl r d) s = next (put32 d (get r s) s)
  step env (shl_imm n d) s = next (put32 d (get32 d s * 2 ^ n) s)
  step env (shrq_imm n d) s = next (put d (get d s / 2 ^ n) s)
  step env (addq_r15 d) s = next (put d ((get d s + env.base) % 2 ^ 64) s)
  step env (movl_load a d) s = load_next d (load_word env.base s.hart (get a s)) s
  step env (movl_store r a) s = store_next (store_word env.base s.hart (get a s) (get32 r s)) s
  step env (load_pc d) s = next (put d s.hart.pc s)
  step env (store_pc r) s = next (record s { hart = record s.hart { pc = get32 r s } })
  step env (alu o r d) s = next (put d (alu_value o (get32 r s) (get32 d s)) s)
  step env (alu_imm o v d) s = next (put d (alu_value o v (get32 d s)) s)
  step env (shift_cl o d) s = next (put d (shift_value o (get Reg.rcx s % 32) (get32 d s)) s)
  step env (cmpl r d) s = next (compare_flags (get32 r s) (get32 d s) s)
  step env (cmpl_param k d) s = next (compare_flags (param env k % 2 ^ 32) (get32 d s) s)
  step env (cmpl_imm v d) s = next (compare_flags v (get32 d s) s)
  step env (set_low c d) s = next (put d (get d s / 256 * 256 + (if holds c s then 1 else 0)) s)
  step env (movzbl r d) s = next (put d (get r s % 2 ^ 8) s)
  step env (movsbl r d) s = next (put d (extend 8 (get r s % 2 ^ 8)) s)
  step env (movzwl r d) s = next (put d (get r s % 2 ^ 16) s)
  step env (movswl r d) s = next (put d (extend 16 (get r s % 2 ^ 16)) s)
  step env (movsxd r d) s = next (put d (word64 (signed32 (get32 r s))) s)
  step env (btr_zero d) s = next (put d (get32 d s / 2 * 2) s)
  step env (imull r) s =
      next (split_product (word64 (signed32 (get32 Reg.rax s) *ℤ signed32 (get32 r s))) s)
  step env (mull r) s = next (split_product (get32 Reg.rax s * get32 r s) s)
  step env (imulq r) s =
      let p = signed64 (get Reg.rax s) *ℤ signed64 (get r s) in
      next (put Reg.rax (word64 p) (put Reg.rdx (word64 (div_floor p (2 ^ 64))) s))
  step env (idivl r) s = idiv_next (edx_eax s) (get32 r s) s
  step env (divl r) s = div_next (edx_eax s) (get32 r s) s
  step env (jcc c n) s = if holds c s then jump n s else next s
  step env (jmp n) s = jump n s
  step env (label n) s = next s
  step env (call f) s = call_next env f s
  step env reset_zero_register s =
      next (record s { hart = record s.hart { regs = set s.hart.regs 0 0 } })
  step env proceed_to_next_instruction s =
      next (record s { hart = record s.hart { pc = (s.hart.pc + 4) % 2 ^ 32 } })
  step env end_instruction s = halt (proceed s)
  step env trap_to_vmm s = halt (trap s)

  -- `some n`: on the way to label `n`. Behind its last instruction a block has its parameters.
  unfoldable pub run : Env M → Option ℕ → List Instr → Cpu M → Outcome (Cpu M)
  run env goal [] s = fault
  run env (some n) (i ∷ is) s = run env (if arrived n i then none else some n) is s
  run env none (i ∷ is) s = elim (step env i s) [
    | next t ↦ run env none is t
    | jump n t ↦ run env (some n) is t
    | halt o ↦ o
  ]

  -- What the block leaves behind for the guest.
  abbrev pub hart_after : Outcome (Cpu M) → Outcome (Hart M)
  hart_after (proceed s) = proceed s.hart
  hart_after (trap s) = trap s.hart
  hart_after fault = fault
