-- ===== src/Host/Steps.antt =====
-- How the common parts of the blocks run: one instruction, a guest register read or written by its
-- index, and the end of a block. A proof about a block is a row of these rules.
use hyrule.Prelude.{ℕ, ◌+◌, ◌*◌, ◌%◌, ◌^◌, ◌<◌, ◌≡◌, refl, List, ◌∷◌, Option, none, some}
use hyrule.Prelude.{Bool, arith, get_or, set}
use mathlib.Core.Path.{subst}
use hyrule.Hart.{Hart}
use hyrule.Host.Cpu.{Reg, Cpu, Env, Fits, get, put, get32, param, load_word, store_word}
use hyrule.Host.Instr.{Instr, movl_param, shl_imm, addq_r15, movl_load, movl_store}
use hyrule.Host.Instr.{Outcome, next, jump, halt, arrived}
use hyrule.Host.Run.{run, step, hart_after}

-- `movl PIC_PARAM(k), t; shl $2, t; addq %r15, t; movl (t), d`
abbrev pub load_gpr : ℕ → Reg → Reg → List Instr → List Instr
load_gpr k t d rest = movl_param k t ∷ shl_imm 2 t ∷ addq_r15 t ∷ movl_load t d ∷ rest

-- `movl PIC_PARAM(k), t; shl $2, t; addq %r15, t; movl r, (t)`
abbrev pub store_gpr : ℕ → Reg → Reg → List Instr → List Instr
store_gpr k t r rest = movl_param k t ∷ shl_imm 2 t ∷ addq_r15 t ∷ movl_store r t ∷ rest

-- The block ends so, as far as the guest can see.
pub record Ends {M : Type 0} (env : Env M) (goal : Option ℕ) (is : List Instr) (s : Cpu M)
    (q : Outcome (Hart M)) : Type 0 where
  pub eq : hart_after (run env goal is s) ≡ q

module _ {M : Type 0} where
  load_word-index :
      (base i : ℕ) (h : Hart M)
      → i < 32
      → load_word base h (base + 4 * i) ≡ some (get_or h.regs i 0)
  unfolding load_word
  load_word-index base i h lt = ground arith

  store_word-index :
      (base i v : ℕ) (h : Hart M)
      → i < 32
      → store_word base h (base + 4 * i) v ≡ some (record h { regs = set h.regs i v })
  unfolding store_word
  store_word-index base i v h lt = ground arith

  pub steps :
      {env : Env M} {i : Instr} {is : List Instr} {s t : Cpu M} {q : Outcome (Hart M)}
      → step env i s ≡ next t
      → Ends env none is t q
      → Ends env none (i ∷ is) s q
  unfolding run
  steps e r = record { eq = rw (e, run) r.eq }

  pub jumps :
      {env : Env M} {i : Instr} {is : List Instr} {n : ℕ} {s t : Cpu M} {q : Outcome (Hart M)}
      → step env i s ≡ jump n t
      → Ends env (some n) is t q
      → Ends env none (i ∷ is) s q
  unfolding run
  jumps e r = record { eq = rw (e, run) r.eq }

  -- On the way to a label.
  pub skips :
      {env : Env M} {i : Instr} {is : List Instr} {n : ℕ} {s : Cpu M} {q : Outcome (Hart M)}
      → arrived n i ≡ Bool.false
      → Ends env (some n) is s q
      → Ends env (some n) (i ∷ is) s q
  unfolding run
  skips e r = record { eq = rw (e, run) r.eq }

  pub lands :
      {env : Env M} {i : Instr} {is : List Instr} {n : ℕ} {s : Cpu M} {q : Outcome (Hart M)}
      → arrived n i ≡ Bool.true
      → Ends env none is s q
      → Ends env (some n) (i ∷ is) s q
  unfolding run
  lands e r = record { eq = rw (e, run) r.eq }

  pub halts :
      {env : Env M} {i : Instr} {is : List Instr} {s : Cpu M} {o : Outcome (Cpu M)}
      {q : Outcome (Hart M)}
      → step env i s ≡ halt o
      → hart_after o ≡ q
      → Ends env none (i ∷ is) s q
  unfolding run
  halts e r = record { eq = rw (e, run) r }

  at_index :
      (env : Env M) (k i : ℕ)
      → Fits env
      → param env k ≡ i
      → i < 32
      → env.base + 4 * i ≡ (param env k % 2 ^ 32 % 2 ^ 32 * 2 ^ 2 % 2 ^ 32 + env.base) % 2 ^ 64
  at_index env k i fits e lt = rw e (omega arith)

  -- The address of guest register `i`.
  pub addresses :
      {env : Env M} {is : List Instr} {s : Cpu M} {q : Outcome (Hart M)} {k : ℕ} (i : ℕ) {t : Reg}
      → Fits env
      → param env k ≡ i
      → i < 32
      → Ends env none is (put t (env.base + 4 * i) s) q
      → Ends env none (movl_param k t ∷ shl_imm 2 t ∷ addq_r15 t ∷ is) s q
  addresses {env} {is} {s} {q} {k} i {t = Reg.rax} fits e lt r = steps refl (
      steps refl (
        steps refl
          (subst (λ a. Ends env none is (put Reg.rax a s) q) (at_index env k i fits e lt) r)))
  addresses {env} {is} {s} {q} {k} i {t} fits e lt r = steps refl (
      steps refl
        (steps refl (subst (λ a. Ends env none is (put t a s) q) (at_index env k i fits e lt) r)))

  get-put : (r : Reg) (v : ℕ) (s : Cpu M) → get r (put r v s) ≡ v
  get-put Reg.rax v s = refl
  get-put r v s = refl

  hart-put : (r : Reg) (v : ℕ) (s : Cpu M) → (put r v s).hart ≡ s.hart
  hart-put Reg.rax v s = refl
  hart-put r v s = refl

  -- Guest register `i` is loaded into `d`.
  pub loads :
      {env : Env M} {is : List Instr} {s : Cpu M} {q : Outcome (Hart M)} {k : ℕ} (i : ℕ) {t d : Reg}
      → Fits env
      → param env k ≡ i
      → i < 32
      → Ends env none is (put d (get_or s.hart.regs i 0) (put t (env.base + 4 * i) s)) q
      → Ends env none (load_gpr k t d is) s q
  loads {env} {s} i {t} {d} fits e lt r = addresses i fits e lt (steps loaded r)
    where
      loaded :
          step env (movl_load t d) (put t (env.base + 4 * i) s)
          ≡ next (put d (get_or s.hart.regs i 0) (put t (env.base + 4 * i) s))
      loaded = rw (get-put, hart-put, load_word-index env.base i s.hart lt)

  -- The state after a store of `r` into guest register `i`.
  abbrev pub stored : Env M → ℕ → Reg → Reg → Cpu M → Cpu M
  stored env i t r s =
      let u = put t (env.base + 4 * i) s in
      record u { hart = record s.hart { regs = set s.hart.regs i (get32 r u) } }

  pub stores :
      {env : Env M} {is : List Instr} {s : Cpu M} {q : Outcome (Hart M)} {k : ℕ} (i : ℕ) {t r : Reg}
      → Fits env
      → param env k ≡ i
      → i < 32
      → Ends env none is (stored env i t r s) q
      → Ends env none (store_gpr k t r is) s q
  stores {env} {s} i {t} {r} fits e lt rest = addresses i fits e lt (steps writes rest)
    where
      u : Cpu M
      u = put t (env.base + 4 * i) s

      writes : step env (movl_store r t) u ≡ next (stored env i t r s)
      writes = rw (get-put, hart-put, store_word-index env.base i (get32 r u) s.hart lt)

  -- A store through an address that is known to be that of guest register `i`.
  pub stores_at :
      {env : Env M} {is : List Instr} {s : Cpu M} {q : Outcome (Hart M)} (i v : ℕ) {a r : Reg}
      → get a s ≡ env.base + 4 * i
      → i < 32
      → get32 r s ≡ v
      → Ends env none is (record s { hart = record s.hart { regs = set s.hart.regs i v } }) q
      → Ends env none (movl_store r a ∷ is) s q
  stores_at {env} {s} i v {a} {r} at lt value rest =
      steps (rw (at, value, store_word-index env.base i v s.hart lt)) rest
