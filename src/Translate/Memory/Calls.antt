-- ===== src/Translate/Memory/Calls.antt =====
-- The calls into sandbox/mmu.c inside a block, answered and not answered.
use hyrule.Prelude.{ℕ, ◌≡◌, refl, none, some, List, ◌∷◌}
use hyrule.Hart.{Hart}
use hyrule.Host.Cpu.{Cpu, Reg, Env, get32}
use hyrule.Host.Run.{after_call, result}
use hyrule.Host.Instr.{Instr, Outcome, fault, call, mmu_read8, mmu_read16, mmu_read32}
use hyrule.Host.Instr.{mmu_write8, mmu_write16, mmu_write32}
use hyrule.Host.Steps.{Ends, steps, halts}

module _ {M : Type 0} where
  module _ {e : Env M} {u : Cpu M} {is : List Instr} {q : Outcome (Hart M)} (a v : ℕ)
      (at : get32 Reg.rsi u ≡ a) where
    pub reads8 :
        e.mmu.read8 u.hart.guest a ≡ some v
        → Ends e none is (after_call e (result e 8 v) u) q
        → Ends e none (call mmu_read8 ∷ is) u q
    reads8 read r = steps (rw (at, read)) r

    pub reads16 :
        e.mmu.read16 u.hart.guest a ≡ some v
        → Ends e none is (after_call e (result e 16 v) u) q
        → Ends e none (call mmu_read16 ∷ is) u q
    reads16 read r = steps (rw (at, read)) r

    pub reads32 :
        e.mmu.read32 u.hart.guest a ≡ some v
        → Ends e none is (after_call e (result e 32 v) u) q
        → Ends e none (call mmu_read32 ∷ is) u q
    reads32 read r = steps (rw (at, read)) r

  module _ {e : Env M} {u : Cpu M} {is : List Instr} {q : Outcome (Hart M)} (g : M) (a v : ℕ)
      (at : get32 Reg.rsi u ≡ a) (value : get32 Reg.rdx u ≡ v) where
    pub writes8 :
        e.mmu.write8 u.hart.guest a v ≡ some g
        → Ends e none is
            (after_call e (e.junk Reg.rax) (record u { hart = record u.hart { guest = g } }))
            q
        → Ends e none (call mmu_write8 ∷ is) u q
    writes8 written r = steps (rw (at, value, written)) r

    pub writes16 :
        e.mmu.write16 u.hart.guest a v ≡ some g
        → Ends e none is
            (after_call e (e.junk Reg.rax) (record u { hart = record u.hart { guest = g } }))
            q
        → Ends e none (call mmu_write16 ∷ is) u q
    writes16 written r = steps (rw (at, value, written)) r

    pub writes32 :
        e.mmu.write32 u.hart.guest a v ≡ some g
        → Ends e none is
            (after_call e (e.junk Reg.rax) (record u { hart = record u.hart { guest = g } }))
            q
        → Ends e none (call mmu_write32 ∷ is) u q
    writes32 written r = steps (rw (at, value, written)) r

  module _ {e : Env M} {u : Cpu M} {is : List Instr} (a v : ℕ) (at : get32 Reg.rsi u ≡ a) where
    pub no_read8 : e.mmu.read8 u.hart.guest a ≡ none → Ends e none (call mmu_read8 ∷ is) u fault
    no_read8 read = halts {o = fault} (rw (at, read)) refl

    pub no_read16 : e.mmu.read16 u.hart.guest a ≡ none → Ends e none (call mmu_read16 ∷ is) u fault
    no_read16 read = halts {o = fault} (rw (at, read)) refl

    pub no_read32 : e.mmu.read32 u.hart.guest a ≡ none → Ends e none (call mmu_read32 ∷ is) u fault
    no_read32 read = halts {o = fault} (rw (at, read)) refl

    pub no_write8 :
        get32 Reg.rdx u ≡ v
        → e.mmu.write8 u.hart.guest a v ≡ none
        → Ends e none (call mmu_write8 ∷ is) u fault
    no_write8 value written = halts {o = fault} (rw (at, value, written)) refl

    pub no_write16 :
        get32 Reg.rdx u ≡ v
        → e.mmu.write16 u.hart.guest a v ≡ none
        → Ends e none (call mmu_write16 ∷ is) u fault
    no_write16 value written = halts {o = fault} (rw (at, value, written)) refl

    pub no_write32 :
        get32 Reg.rdx u ≡ v
        → e.mmu.write32 u.hart.guest a v ≡ none
        → Ends e none (call mmu_write32 ∷ is) u fault
    no_write32 value written = halts {o = fault} (rw (at, value, written)) refl
