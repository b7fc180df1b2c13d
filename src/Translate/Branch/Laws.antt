-- ===== src/Translate/Branch/Laws.antt =====
-- The blocks of translate_branch.c take the branches that the specification takes.
use hyrule.Prelude.{ℕ, ◌+◌, ◌*◌, ◌%◌, ◌^◌, ◌<◌, ◌≡◌, refl, ap, ◌∙◌, arith}
use hyrule.Prelude.{Bool, true, false, not, none, if◌then◌else◌}
use hyrule.Word.{extend, sign_extend32}
use hyrule.Word.Extend.{sign_extend32-extend}
use hyrule.Word.Laws.{signed_less32, less32, equal32}
use hyrule.Hart.{IsHart}
use hyrule.Host.Cpu.{Cpu, Env, param}
use hyrule.Host.Instr.{Cond, trap}
use hyrule.Host.Run.{holds}
use hyrule.Host.Steps.{Ends, steps, jumps, skips, lands, halts, loads}
use hyrule.Rv.{taken, set_pc, advance, reg}
use hyrule.Rv
use hyrule.Translate.Block.{Decoding, IsDecoding, Block, Host, HostFits, env}
use hyrule.Translate.Branch.{branch_end, branch_taken_target, riscv_beq_translator}
use hyrule.Translate.Branch.{riscv_bne_translator, riscv_blt_translator, riscv_bltu_translator}
use hyrule.Translate.Branch.{riscv_bge_translator, riscv_bgeu_translator}

not-not : (t : Bool) → t ≡ not (not t)
not-not true = refl
not-not false = refl

module _ {M : Type 0} where
  -- The jump is made exactly when the branch is not taken.
  branch-Ends :
      {e : Env M} {c : Cond} {u : Cpu M} (t : Bool) (target : ℕ)
      → holds c u ≡ not t
      → param e 2 ≡ target % 2 ^ 32
      → u.rdx % 2 ^ 32 ≡ (u.hart.pc + 4) % 2 ^ 32
      → Ends e none (branch_end c) u (trap (if t then set_pc target u.hart else advance u.hart))
  branch-Ends {u} true target jump p fall = steps {t = u} (rw jump) (
      steps refl (
        steps refl (
          steps refl
            (halts refl (ap (λ (a : ℕ). trap (record u.hart { pc = a })) (rw p (omega arith)))))))
  branch-Ends {u} false target jump p fall = jumps {n = 1} {t = u} (rw jump) (
      skips refl (
        lands refl
          (steps refl (halts refl (ap (λ (a : ℕ). trap (record u.hart { pc = a })) fall)))))

module _ {M : Type 0} (m : Host M) (dec : Decoding) (s : Cpu M) where
  abbrev Branches : Block → Rv.BranchOp → Type 0
  Branches block o = Ends (env m block) none block.code s (
      trap (
        if taken o (reg s.hart dec.rs1_index) (reg s.hart dec.rs2_index)
        then set_pc (s.hart.pc + extend 13 (2 * dec.imm)) s.hart
        else advance s.hart))

  module _ (fits : HostFits m) (ok : IsHart s.hart) (d : IsDecoding dec)
      (short : dec.imm < 2 ^ 12) where
    target : branch_taken_target s.hart.pc dec ≡ (s.hart.pc + extend 13 (2 * dec.imm)) % 2 ^ 32
    target =
        ap (λ (x : ℕ). (s.hart.pc + sign_extend32 x 12) % 2 ^ 32) (omega arith)
        ∙ ap (λ x. (s.hart.pc + x) % 2 ^ 32)
            (sign_extend32-extend (2 * dec.imm) 12 (omega arith) (omega arith))

    pub beq-Branches : Branches (riscv_beq_translator s.hart.pc dec) Rv.beq
    unfolding riscv_beq_translator taken
    beq-Branches = loads dec.rs1_index fits refl d.rs1_fits (
        loads dec.rs2_index fits refl d.rs2_fits (
          steps refl (
            steps refl (
              steps refl (
                branch-Ends (taken Rv.beq (reg s.hart dec.rs1_index) (reg s.hart dec.rs2_index)) _
                  (ap not (equal32 _ _ (ok.words dec.rs1_index) (ok.words dec.rs2_index))) target
                  (omega arith))))))

    pub bne-Branches : Branches (riscv_bne_translator s.hart.pc dec) Rv.bne
    unfolding riscv_bne_translator taken
    bne-Branches = loads dec.rs1_index fits refl d.rs1_fits (
        loads dec.rs2_index fits refl d.rs2_fits (
          steps refl (
            steps refl (
              steps refl (
                branch-Ends (taken Rv.bne (reg s.hart dec.rs1_index) (reg s.hart dec.rs2_index)) _
                  (equal32 _ _ (ok.words dec.rs1_index) (ok.words dec.rs2_index) ∙ not-not _) target
                  (omega arith))))))

    pub blt-Branches : Branches (riscv_blt_translator s.hart.pc dec) Rv.blt
    unfolding riscv_blt_translator taken
    blt-Branches = loads dec.rs1_index fits refl d.rs1_fits (
        loads dec.rs2_index fits refl d.rs2_fits (
          steps refl (
            steps refl (
              steps refl (
                branch-Ends (taken Rv.blt (reg s.hart dec.rs1_index) (reg s.hart dec.rs2_index)) _
                  (ap not (signed_less32 _ _ (ok.words dec.rs1_index) (ok.words dec.rs2_index)))
                  target (omega arith))))))

    pub bltu-Branches : Branches (riscv_bltu_translator s.hart.pc dec) Rv.bltu
    unfolding riscv_bltu_translator taken
    bltu-Branches = loads dec.rs1_index fits refl d.rs1_fits (
        loads dec.rs2_index fits refl d.rs2_fits (
          steps refl (
            steps refl (
              steps refl (
                branch-Ends (taken Rv.bltu (reg s.hart dec.rs1_index) (reg s.hart dec.rs2_index)) _
                  (ap not (less32 _ _ (ok.words dec.rs1_index) (ok.words dec.rs2_index))) target
                  (omega arith))))))

    pub bge-Branches : Branches (riscv_bge_translator s.hart.pc dec) Rv.bge
    unfolding riscv_bge_translator taken
    bge-Branches = loads dec.rs1_index fits refl d.rs1_fits (
        loads dec.rs2_index fits refl d.rs2_fits (
          steps refl (
            steps refl (
              steps refl (
                branch-Ends (taken Rv.bge (reg s.hart dec.rs1_index) (reg s.hart dec.rs2_index)) _
                  (signed_less32 _ _ (ok.words dec.rs1_index) (ok.words dec.rs2_index) ∙ not-not _)
                  target (omega arith))))))

    pub bgeu-Branches : Branches (riscv_bgeu_translator s.hart.pc dec) Rv.bgeu
    unfolding riscv_bgeu_translator taken
    bgeu-Branches = loads dec.rs1_index fits refl d.rs1_fits (
        loads dec.rs2_index fits refl d.rs2_fits (
          steps refl (
            steps refl (
              steps refl (
                branch-Ends (taken Rv.bgeu (reg s.hart dec.rs1_index) (reg s.hart dec.rs2_index)) _
                  (less32 _ _ (ok.words dec.rs1_index) (ok.words dec.rs2_index) ∙ not-not _) target
                  (omega arith))))))
