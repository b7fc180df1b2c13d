-- ===== src/Translate/MulDiv/Divide.antt =====
-- The host's division inside a block: the comparison of the divisor with zero, the dividend spread
-- over EDX:EAX, and the faults.
use hyrule.Prelude.{ℕ, ◌+◌, ◌-◌, ◌*◌, ◌/◌, ◌%◌, ◌^◌, ◌<◌, ◌≡◌, refl, arith}
use hyrule.Prelude.{none, true, false, ◌==◌, inl, inr, List, ◌∷◌, leb, bit_xor, ◌⊎◌}
use hyrule.Prelude.Bits.{bit_xor_self}
use hyrule.Prelude.Int.{quot, rem}
use hyrule.Word.{signed32, word, word64}
use native.Mathlib.Nat.{mod-eq_of_lt, div-le_self}
use hyrule.Hart.{Hart}
use hyrule.Host.Cpu.{Cpu, Env, Reg, put, put32}
use hyrule.Host.Run.{compare_flags, edx_eax}
use hyrule.Word.Division.{overflows, idiv_faults-overflows, dividend}
use hyrule.Host.Instr.{Instr, Outcome, fault, label, arrived, idivl, divl}
use hyrule.Translate.MulDiv.{unless_zero}
use hyrule.Host.Steps.{Ends, steps, jumps, skips, lands, halts}

-- The zero test of a register that holds a word.
pub equal_zero : (y : ℕ) → y < 2 ^ 32 → (y % 2 ^ 32 % 2 ^ 32 == 0) ≡ (y == 0)
equal_zero y h = rw (mod-eq_of_lt h, mod-eq_of_lt h)

-- `xorl %edx, %edx` leaves the dividend in EDX:EAX.
pub cleared :
    (x c : ℕ) → x < 2 ^ 32 → bit_xor (c % 2 ^ 32) (c % 2 ^ 32) % 2 ^ 32 * 2 ^ 32 + x % 2 ^ 32 ≡ x
cleared x c h = rw (bit_xor_self (c % 2 ^ 32)) (omega arith)

quotient_fits : (x y : ℕ) → x < 2 ^ 32 → leb (2 ^ 32) (x / y) ≡ false
quotient_fits x y h = ground (arith, div-le_self x y)

module _ {M : Type 0} where
  -- The state after the comparison of the divisor with zero.
  abbrev compared : Cpu M → Cpu M
  compared u = compare_flags 0 (u.rbx % 2 ^ 32 % 2 ^ 32) (put32 Reg.r8 u.rbx u)

  -- Both ways through that comparison.
  pub on_zero :
      {e : Env M} {u : Cpu M} {divide : Instr} {rest : List Instr} {q : Outcome (Hart M)}
      → (u.rbx % 2 ^ 32 % 2 ^ 32 == 0) ≡ true
      → arrived 2 divide ≡ false
      → Ends e none rest (put32 Reg.rax (2 ^ 32 - 1) (compared u)) q
      → Ends e none (unless_zero divide rest) u q
  on_zero {u} zero other r = steps refl (
      steps refl (
        steps {t = compared u} (rw zero)
          (steps refl (jumps {n = 2} refl (skips refl (skips other (lands refl r)))))))

  pub on_nonzero :
      {e : Env M} {u : Cpu M} {divide : Instr} {rest : List Instr} {q : Outcome (Hart M)}
      → (u.rbx % 2 ^ 32 % 2 ^ 32 == 0) ≡ false
      → Ends e none (divide ∷ label 2 ∷ rest) (compared u) q
      → Ends e none (unless_zero divide rest) u q
  on_nonzero {u} nonzero r = steps refl (
      steps refl
        (jumps {n = 1} {t = compared u} (rw nonzero) (skips refl (skips refl (lands refl r)))))

  -- A signed division of `x`, spread over EDX:EAX, by `y`.
  pub idiv-Ends :
      {e : Env M} {u : Cpu M} {is : List Instr} {q : Outcome (Hart M)} (x y : ℕ)
      → x < 2 ^ 32
      → y < 2 ^ 32
      → edx_eax u ≡ word64 (signed32 (x % 2 ^ 32)) / 2 ^ 32 % 2 ^ 32 * 2 ^ 32 + x % 2 ^ 32
      → u.rbx ≡ y
      → (y == 0) ≡ false
      → overflows x y ≡ false
      → Ends e none is
          (put Reg.rax
            (word (quot (signed32 x) (signed32 y)))
            (put Reg.rdx (word (rem (signed32 x) (signed32 y))) u))
          q
      → Ends e none (idivl Reg.rbx ∷ is) u q
  idiv-Ends {u} x y hx hy whole at nonzero small r =
      steps
        (rw (
          whole,
          at,
          mod-eq_of_lt hy,
          dividend x hx,
          nonzero,
          idiv_faults-overflows x y hx hy nonzero,
          small,
        ))
        r

  pub idiv_faults_on :
      {e : Env M} {u : Cpu M} {is : List Instr} (x y : ℕ)
      → x < 2 ^ 32
      → y < 2 ^ 32
      → edx_eax u ≡ word64 (signed32 (x % 2 ^ 32)) / 2 ^ 32 % 2 ^ 32 * 2 ^ 32 + x % 2 ^ 32
      → u.rbx ≡ y
      → ((y == 0) ≡ true) ⊎ (((y == 0) ≡ false) × (overflows x y ≡ true))
      → Ends e none (idivl Reg.rbx ∷ is) u fault
  idiv_faults_on {u} x y hx hy whole at (inl zero) =
      halts {o = fault} (rw (whole, at, mod-eq_of_lt hy, zero)) refl
  idiv_faults_on {u} x y hx hy whole at (inr (nonzero, large)) =
      halts {o = fault}
        (rw (
          whole,
          at,
          mod-eq_of_lt hy,
          dividend x hx,
          nonzero,
          idiv_faults-overflows x y hx hy nonzero,
          large,
        ))
        refl

  pub div_faults_on :
      {e : Env M} {u : Cpu M} {is : List Instr} (y : ℕ)
      → y < 2 ^ 32
      → u.rbx ≡ y
      → (y == 0) ≡ true
      → Ends e none (divl Reg.rbx ∷ is) u fault
  div_faults_on {u} y hy at zero = halts {o = fault} (rw (at, mod-eq_of_lt hy, zero)) refl

  pub div-Ends :
      {e : Env M} {u : Cpu M} {is : List Instr} {q : Outcome (Hart M)} (x y : ℕ)
      → x < 2 ^ 32
      → y < 2 ^ 32
      → edx_eax u ≡ x
      → u.rbx ≡ y
      → (y == 0) ≡ false
      → Ends e none is (put Reg.rax (x / y) (put Reg.rdx (x % y) u)) q
      → Ends e none (divl Reg.rbx ∷ is) u q
  div-Ends {u} x y hx hy whole at nonzero r =
      steps (rw (whole, at, mod-eq_of_lt hy, nonzero, quotient_fits x y hx)) r
