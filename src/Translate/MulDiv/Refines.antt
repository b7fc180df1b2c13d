-- ===== src/Translate/MulDiv/Refines.antt =====
-- The dispatch of translate_multiplication_and_division.c on funct3, and where the host faults.
use hyrule.Prelude.{
  ℕ, Bool, true, false, ◌||◌, ◌==◌, ◌≡◌, refl, ap, sym, ◌∙◌, arith, Bool-cases, ◌⊎◌, inl, inr,
}
use hyrule.Hart.{IsHart}
use hyrule.Host.Cpu.{Cpu}
use hyrule.Host.Instr.{fault}
use hyrule.Word.Division.{overflows}
use hyrule.Translate.Block.{Decoding, IsDecoding, Host, HostFits, Yields}
use hyrule.Rv.{execute, reg}
use hyrule.Rv
use hyrule.Rv.Encode.{mul_funct3}
use hyrule.Translate.MulDiv.{riscv_mul_div_entry, riscv_mul_translator, riscv_mulh_translator}
use hyrule.Translate.MulDiv.{riscv_mulhsu_translator, riscv_mulhu_translator, riscv_div_translator}
use hyrule.Translate.MulDiv.{riscv_divu_translator, riscv_rem_translator, riscv_remu_translator}
use hyrule.Translate.MulDiv.Laws.{mul-Computes, mulh-Computes, mulhsu-Computes, mulhu-Computes}
use hyrule.Translate.MulDiv.Laws.{div-Computes, divu-Computes, rem-Computes, remu-Computes}
use hyrule.Translate.MulDiv.Laws.{div-Faults, rem-Faults, remu-Faults}

-- The operands on which the host's division instruction faults: no test of the divisor stands
-- before that of `rem` and `remu`, and none of the overflow before that of `div` and `rem`.
unfoldable pub host_faults : Rv.MulOp → ℕ → ℕ → Bool
host_faults Rv.div x y = overflows x y
host_faults Rv.rem x y = (y == 0) || overflows x y
host_faults Rv.remu x y = y == 0
host_faults _ x y = false

or_left : (a b : Bool) → (a || b) ≡ false → a ≡ false
or_left true b h = h
or_left false b h = refl

or_right : (a b : Bool) → (a || b) ≡ false → b ≡ false
or_right true b h = absurd (ground arith)
or_right false b h = h

overflows_nonzero : (x y : ℕ) → overflows x y ≡ true → (y == 0) ≡ false
unfolding overflows
overflows_nonzero x y h = ground arith

rem_faults :
    (x y : ℕ)
    → ((y == 0) || overflows x y) ≡ true
    → ((y == 0) ≡ true) ⊎ (((y == 0) ≡ false) × (overflows x y ≡ true))
rem_faults x y h = elim (Bool-cases (y == 0)) [
  | inl zero ↦ inl zero
  | inr nonzero ↦ inr (nonzero, ap (λ b. b || overflows x y) (sym nonzero) ∙ h)
]

module _ {M : Type 0} (m : Host M) (dec : Decoding) (s : Cpu M) (fits : HostFits m)
    (ok : IsHart s.hart) (d : IsDecoding dec) where
  -- For every multiplication or division whose funct3 the decoding holds, with register indices
  -- below 32, in a well-formed hart on a host whose hart structure does not wrap round the address
  -- space, where the host's division does not fault on the operands: the entry finds a block that
  -- does not end the unit, and running it writes the product, quotient or remainder of the
  -- specification and moves on.
  pub mul_div_entry-refines :
      (o : Rv.MulOp)
      → dec.funct3 ≡ mul_funct3 o
      → host_faults o (reg s.hart dec.rs1_index) (reg s.hart dec.rs2_index) ≡ false
      → Yields m s
          (riscv_mul_div_entry dec)
          false
          (execute m.mmu (Rv.mul_div o dec.rd_index dec.rs1_index dec.rs2_index) s.hart)
  unfolding riscv_mul_div_entry riscv_mul_translator riscv_mulh_translator riscv_mulhsu_translator
      riscv_mulhu_translator riscv_div_translator riscv_divu_translator riscv_rem_translator
      riscv_remu_translator mul_funct3 host_faults execute
  mul_div_entry-refines Rv.mul f3 fine = record {
    block = riscv_mul_translator dec;
    is_found = rw f3;
    unit = refl;
    outcome = (mul-Computes m dec s fits ok d).eq;
  }
  mul_div_entry-refines Rv.mulh f3 fine = record {
    block = riscv_mulh_translator dec;
    is_found = rw f3;
    unit = refl;
    outcome = (mulh-Computes m dec s fits ok d).eq;
  }
  mul_div_entry-refines Rv.mulhsu f3 fine = record {
    block = riscv_mulhsu_translator dec;
    is_found = rw f3;
    unit = refl;
    outcome = (mulhsu-Computes m dec s fits ok d).eq;
  }
  mul_div_entry-refines Rv.mulhu f3 fine = record {
    block = riscv_mulhu_translator dec;
    is_found = rw f3;
    unit = refl;
    outcome = (mulhu-Computes m dec s fits ok d).eq;
  }
  mul_div_entry-refines Rv.div f3 fine = record {
    block = riscv_div_translator dec;
    is_found = rw f3;
    unit = refl;
    outcome = (div-Computes m dec s fits ok d fine).eq;
  }
  mul_div_entry-refines Rv.divu f3 fine = record {
    block = riscv_divu_translator dec;
    is_found = rw f3;
    unit = refl;
    outcome = (divu-Computes m dec s fits ok d).eq;
  }
  mul_div_entry-refines Rv.rem f3 fine = record {
    block = riscv_rem_translator dec;
    is_found = rw f3;
    unit = refl;
    outcome = (rem-Computes m dec s fits ok d (or_left _ _ fine) (or_right _ _ fine)).eq;
  }
  mul_div_entry-refines Rv.remu f3 fine = record {
    block = riscv_remu_translator dec;
    is_found = rw f3;
    unit = refl;
    outcome = (remu-Computes m dec s fits ok d fine).eq;
  }

  -- For a division whose funct3 the decoding holds, with register indices below 32, in a well-formed
  -- hart on a host whose hart structure does not wrap round the address space, and operands on which
  -- the host's division faults: the entry finds a block that does not end the unit, and running it
  -- ends in a fault of the host.
  pub mul_div_entry-faults :
      (o : Rv.MulOp)
      → dec.funct3 ≡ mul_funct3 o
      → host_faults o (reg s.hart dec.rs1_index) (reg s.hart dec.rs2_index) ≡ true
      → Yields m s (riscv_mul_div_entry dec) false fault
  unfolding riscv_mul_div_entry riscv_div_translator riscv_rem_translator riscv_remu_translator
      mul_funct3 host_faults
  mul_div_entry-faults Rv.div f3 why = record {
    block = riscv_div_translator dec;
    is_found = rw f3;
    unit = refl;
    outcome = (div-Faults m dec s fits ok d (overflows_nonzero _ _ why) why).eq;
  }
  mul_div_entry-faults Rv.rem f3 why = record {
    block = riscv_rem_translator dec;
    is_found = rw f3;
    unit = refl;
    outcome = (rem-Faults m dec s fits ok d (rem_faults _ _ why)).eq;
  }
  mul_div_entry-faults Rv.remu f3 why = record {
    block = riscv_remu_translator dec;
    is_found = rw f3;
    unit = refl;
    outcome = (remu-Faults m dec s fits ok d why).eq;
  }
  mul_div_entry-faults _ f3 why = absurd (ground arith)
