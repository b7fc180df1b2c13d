-- ===== src/Translate/Finish.antt =====
-- The end that most blocks share: the result is stored into the destination register, register 0
-- is cleared and the pc moves on. Together this is the write of the specification.
use hyrule.Prelude.{ℕ, zero, suc, ◌+◌, ◌*◌, ◌<◌, ◌≡◌, refl, ◌∙◌, ap, List, [], ◌∷◌, none}
use hyrule.Prelude.{arith, get_or, set, ◌==◌, if◌then◌else◌}
use hyrule.Hart.{Hart, IsHart}
use hyrule.Host.Cpu.{Reg, Cpu, Env, Fits, put, get32, param}
use hyrule.Host.Instr.{Instr, reset_zero_register, proceed_to_next_instruction, end_instruction}
use hyrule.Host.Instr.{proceed}
use hyrule.Host.Steps.{Ends, steps, halts, stores, store_gpr}
use hyrule.Rv.{write_reg, advance}

-- `RESET_ZERO_REGISTER() PROCEED_TO_NEXT_INSTRUCTION() END_INSTRUCTION(..)`
abbrev pub epilogue : List Instr
epilogue = reset_zero_register ∷ proceed_to_next_instruction ∷ end_instruction ∷ []

set-set_zero :
    (xs : List ℕ) (rd v : ℕ)
    → get_or xs 0 0 ≡ 0
    → set (set xs rd v) 0 0 ≡ (if rd == 0 then xs else set xs rd v)
set-set_zero [] rd v e = ground arith
set-set_zero (x ∷ xs) zero v e = ap (λ a. a ∷ xs) (omega arith)
set-set_zero (x ∷ xs) (suc rd) v e = ground arith

module _ {M : Type 0} where
  -- Clearing register 0 after a write undoes a write to register 0, and nothing else.
  pub write_reg-set :
      {h : Hart M} (rd v : ℕ)
      → IsHart h
      → record h { regs = set (set h.regs rd v) 0 0 } ≡ write_reg rd v h
  write_reg-set {h} rd v ok = ground (arith, set-set_zero h.regs rd v ok.zero_reg)

  pub writes_back :
      {env : Env M} {s : Cpu M} {k : ℕ} (rd v : ℕ) {t r : Reg}
      → Fits env
      → IsHart s.hart
      → param env k ≡ rd
      → rd < 32
      → get32 r (put t (env.base + 4 * rd) s) ≡ v
      → Ends env none (store_gpr k t r epilogue) s (proceed (advance (write_reg rd v s.hart)))
  writes_back {s} rd v fits ok e lt value = stores rd fits e lt (
      steps refl (
        steps refl (
          halts refl (
            ap (λ g. proceed (advance g))
              (ap (λ x. record s.hart { regs = set (set s.hart.regs rd x) 0 0 }) value
                ∙ write_reg-set rd v ok)))))
