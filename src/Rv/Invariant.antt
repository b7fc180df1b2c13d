-- ===== src/Rv/Invariant.antt =====
-- The specification keeps the registers and the pc within their words and register 0 at zero.
use hyrule.Prelude.{ℕ, zero, suc, ◌%◌, ◌^◌, ◌<◌, ◌≡◌, refl, ◌∙◌, arith}
use hyrule.Prelude.{Bool, true, false, List, [], ◌∷◌, Option, none, some, get_or, set}
use hyrule.Prelude.{length-set, Option-cases, inl, inr, ◌==◌, if◌then◌else◌}
use hyrule.Prelude.Bits.{bit_and-lt, bit_or-lt, bit_xor-lt}
use hyrule.Prelude.Int.{div_floor, quot, ◌*ℤ◌, pos}
use hyrule.Prelude.Int
use hyrule.Word.{signed32, extend}
use hyrule.Word.Product.{word-lt, product-lt}
use hyrule.Word.Laws.{extend-lt}
use native.Mathlib.Nat.{div-le_self, mod-le}
use mathlib.Core.Option
use hyrule.Hart.{Hart, Mmu, IsHart, IsMmu}
use hyrule.Host.Instr.{Outcome, proceed, trap, fault}
use hyrule.Rv.{execute, op_value, mul_value, imm_value, write_reg, set_pc, advance, reg, truth}
use hyrule.Rv.{Op, MulOp, ImmOp, load_value, store_value, taken, address, finish_store}
use hyrule.Rv
use hyrule.Rv.Encode.{IsInstr, imm_bound}

-- The guest may go on, and then from a well-formed hart.
abbrev pub Keeps : {M : Type 0} → Outcome (Hart M) → Type 0
Keeps (proceed h) = IsHart h
Keeps (trap h) = IsHart h
Keeps fault = Unit

get_or-set-lt :
    (xs : List ℕ) (i v : ℕ)
    → v < 2 ^ 32
    → ((j : ℕ) → get_or xs j 0 < 2 ^ 32)
    → (j : ℕ) → get_or (set xs i v) j 0 < 2 ^ 32
get_or-set-lt [] i v h all j = all j
get_or-set-lt (x ∷ xs) zero v h all zero = h
get_or-set-lt (x ∷ xs) zero v h all (suc j) = all (suc j)
get_or-set-lt (x ∷ xs) (suc i) v h all zero = all zero
get_or-set-lt (x ∷ xs) (suc i) v h all (suc j) = get_or-set-lt xs i v h (λ k. all (suc k)) j

get_or-set_other : (xs : List ℕ) (i v : ℕ) → get_or (set xs (suc i) v) 0 0 ≡ get_or xs 0 0
get_or-set_other [] i v = refl
get_or-set_other (x ∷ xs) i v = refl

module _ {M : Type 0} where
  set-IsHart :
      (h : Hart M) (rd v : ℕ)
      → v < 2 ^ 32
      → IsHart h
      → IsHart (record h { regs = set h.regs (suc rd) v })
  set-IsHart h rd v lt ok = record {
    count = length-set h.regs (suc rd) v ∙ ok.count;
    words = get_or-set-lt h.regs (suc rd) v lt ok.words;
    zero_reg = get_or-set_other h.regs rd v ∙ ok.zero_reg;
    pc_word = ok.pc_word;
  }

  write_reg-IsHart : (h : Hart M) (rd v : ℕ) → v < 2 ^ 32 → IsHart h → IsHart (write_reg rd v h)
  write_reg-IsHart h zero v lt ok = ok
  write_reg-IsHart h (suc rd) v lt ok =
      let nonzero : (suc rd == 0) ≡ false = ground arith in rw nonzero (set-IsHart h rd v lt ok)

  set_pc-IsHart : (h : Hart M) (target : ℕ) → IsHart h → IsHart (set_pc target h)
  set_pc-IsHart h target ok = record {
    count = ok.count;
    words = ok.words;
    zero_reg = ok.zero_reg;
    pc_word = omega arith;
  }

truth-lt : (b : Bool) → truth b < 2 ^ 32
truth-lt true = omega arith
truth-lt false = omega arith

op_value-lt : (o : Op) (x y : ℕ) → x < 2 ^ 32 → y < 2 ^ 32 → op_value o x y < 2 ^ 32
unfolding op_value
op_value-lt Op.slt x y hx hy = truth-lt _
op_value-lt Op.sltu x y hx hy = truth-lt _
op_value-lt Op.xor x y hx hy = bit_xor-lt 32 x y hx hy
op_value-lt Op.or x y hx hy = bit_or-lt 32 x y hx hy
op_value-lt Op.and x y hx hy = bit_and-lt 32 x y hx hy
op_value-lt Op.srl x y hx hy = omega (arith, div-le_self x (2 ^ (y % 32)))
op_value-lt Op.sra x y hx hy = word-lt (div_floor (signed32 x) (2 ^ (y % 32)))
op_value-lt _ x y hx hy = omega arith

mul_value-lt : (o : MulOp) (x y : ℕ) → x < 2 ^ 32 → y < 2 ^ 32 → mul_value o x y < 2 ^ 32
unfolding mul_value
mul_value-lt MulOp.mul x y hx hy = omega arith
mul_value-lt MulOp.mulh x y hx hy = word-lt (div_floor (signed32 x *ℤ signed32 y) (2 ^ 32))
mul_value-lt MulOp.mulhsu x y hx hy = word-lt (div_floor (signed32 x *ℤ pos y) (2 ^ 32))
mul_value-lt MulOp.mulhu x y hx hy = omega (arith, product-lt y x hy hx)
mul_value-lt MulOp.div x y hx hy = ground (arith, word-lt (quot (signed32 x) (signed32 y)))
mul_value-lt MulOp.divu x y hx hy = ground (arith, div-le_self x y)
mul_value-lt MulOp.rem x y hx hy = ground (arith, word-lt (Int.rem (signed32 x) (signed32 y)))
mul_value-lt MulOp.remu x y hx hy = ground (arith, mod-le x y)

imm_value-lt : (o : ImmOp) (x imm : ℕ) → x < 2 ^ 32 → imm < imm_bound o → imm_value o x imm < 2 ^ 32
unfolding imm_value imm_bound
imm_value-lt ImmOp.slli x imm hx h = op_value-lt Op.sll x imm hx (omega arith)
imm_value-lt ImmOp.srli x imm hx h = op_value-lt Op.srl x imm hx (omega arith)
imm_value-lt ImmOp.srai x imm hx h = op_value-lt Op.sra x imm hx (omega arith)
imm_value-lt _ x imm hx h = op_value-lt _ x (extend 12 imm) hx (extend-lt imm h)

module _ {M : Type 0} where
  either-IsHart : (t : Bool) {g h : Hart M} → IsHart g → IsHart h → IsHart (if t then g else h)
  either-IsHart true first second = first
  either-IsHart false first second = second

  finish_store-Keeps : (o : Option M) {h : Hart M} → IsHart h → Keeps (finish_store o h)
  finish_store-Keeps none ok = record {}
  finish_store-Keeps (some g) ok = record {
    count = ok.count;
    words = ok.words;
    zero_reg = ok.zero_reg;
    pc_word = omega arith;
  }

map-lt :
    (f : ℕ → ℕ) (k : ℕ) (o : Option ℕ) (v : ℕ)
    → ((w : ℕ) → o ≡ some w → f w < k)
    → Option.map f o ≡ some v
    → v < k
map-lt f k none v h e = absurd (ground arith)
map-lt f k (some w) v h e = let bound : f w < k = h w refl in ground arith

byte-lt : (v : ℕ) → v < 2 ^ 8 → extend 8 v < 2 ^ 32
byte-lt v h = ground arith

half-lt : (v : ℕ) → v < 2 ^ 16 → extend 16 v < 2 ^ 32
half-lt v h = ground arith

module _ {M : Type 0} (mmu : Mmu M) (is_mmu : IsMmu mmu) where
  load_value-lt : (o : Rv.LoadOp) (g : M) (a v : ℕ) → load_value mmu o g a ≡ some v → v < 2 ^ 32
  load_value-lt Rv.lw g a v e = is_mmu.word g a v e
  load_value-lt Rv.lbu g a v e = omega (arith, is_mmu.byte g a v e)
  load_value-lt Rv.lhu g a v e = omega (arith, is_mmu.half g a v e)
  load_value-lt Rv.lb g a v e =
      map-lt (extend 8) (2 ^ 32) (mmu.read8 g a) v (λ w r. byte-lt w (is_mmu.byte g a w r)) e
  load_value-lt Rv.lh g a v e =
      map-lt (extend 16) (2 ^ 32) (mmu.read16 g a) v (λ w r. half-lt w (is_mmu.half g a w r)) e

  -- Executing an instruction leaves a well-formed hart or faults.
  pub execute-IsHart : (i : Rv.Instr) (h : Hart M) → IsInstr i → IsHart h → Keeps (execute mmu i h)
  unfolding execute IsInstr
  execute-IsHart (Rv.lui rd imm) h (rd_fits, imm_fits) ok =
      set_pc-IsHart _ _ (write_reg-IsHart h rd _ (omega arith) ok)
  execute-IsHart (Rv.auipc rd imm) h (rd_fits, imm_fits) ok =
      set_pc-IsHart _ _ (write_reg-IsHart h rd _ (omega arith) ok)
  execute-IsHart (Rv.jal rd imm) h (rd_fits, imm_fits) ok =
      set_pc-IsHart _ _ (write_reg-IsHart h rd _ (omega arith) ok)
  execute-IsHart (Rv.jalr rd rs1 imm) h (rd_fits, rs1_fits, imm_fits) ok =
      set_pc-IsHart _ _ (write_reg-IsHart h rd _ (omega arith) ok)
  execute-IsHart (Rv.branch o rs1 rs2 imm) h widths ok =
      either-IsHart (taken o (reg h rs1) (reg h rs2)) (set_pc-IsHart h _ ok) (set_pc-IsHart h _ ok)
  execute-IsHart (Rv.load o rd rs1 imm) h widths ok =
      elim (Option-cases (load_value mmu o h.guest (address h rs1 imm))) [
        | inl e ↦ rw e record {}
        | inr (v, e) ↦ rw e (
            set_pc-IsHart _ _
              (write_reg-IsHart h rd v (load_value-lt o h.guest (address h rs1 imm) v e) ok))
      ]
  execute-IsHart (Rv.store o rs1 rs2 imm) h widths ok =
      finish_store-Keeps (store_value mmu o h.guest (address h rs1 imm) (reg h rs2)) ok
  execute-IsHart (Rv.op_imm o rd rs1 imm) h (rd_fits, rs1_fits, imm_fits) ok =
      set_pc-IsHart _ _
        (write_reg-IsHart h rd _ (imm_value-lt o (reg h rs1) imm (ok.words rs1) imm_fits) ok)
  execute-IsHart (Rv.op o rd rs1 rs2) h widths ok = set_pc-IsHart _ _ (
      write_reg-IsHart h rd _ (op_value-lt o (reg h rs1) (reg h rs2) (ok.words rs1) (ok.words rs2))
        ok)
  execute-IsHart (Rv.mul_div o rd rs1 rs2) h widths ok = set_pc-IsHart _ _ (
      write_reg-IsHart h rd _ (mul_value-lt o (reg h rs1) (reg h rs2) (ok.words rs1) (ok.words rs2))
        ok)
