-- ===== src/Privilege/Trap/Round.antt =====
-- A trap and the return from it, in sandbox/hart_trap.c and translate_privileged_instr.c.
use hyrule.Prelude.{ℕ, ◌%◌, ◌≤◌, ◌≡◌, refl, arith, true, ◌||◌, ◌==◌}
use hyrule.Prelude.Returns.{Returns}
use hyrule.Cache.Memory.{store}
use hyrule.Privilege.{PrivilegedHart, IsLevel}
use hyrule.Privilege.Trap.{
  setup_mmode_trap, setup_smode_trap, raise_trap_raw, adjust_mstatus_upon_mret,
  adjust_mstatus_upon_sret, adjust_pc_upon_mret, adjust_pc_upon_sret, mret_callback, sret_callback,
}

-- The hart is where it was, with the same registers, level and enabled interrupts.
abbrev pub Resumes : PrivilegedHart → PrivilegedHart → Type 0
Resumes h next =
    (next.pc ≡ h.pc)
    × (next.privilege_level ≡ h.privilege_level)
    × (next.registers ≡ h.registers)
    × (next.status.mie ≡ h.status.mie)
    × (next.status.sie ≡ h.status.sie)
    × (next.ienable ≡ h.ienable)
    × (next.ipending ≡ h.ipending)

module _ (h : PrivilegedHart) (cause tval : ℕ) where
  -- From the user's, the supervisor's or the machine's level: a trap to the machine's level and an
  -- mret behind it both return, without a failed assertion, and leave the hart at the same pc and
  -- level, with the same registers and the same interrupts enabled and pending.
  pub mret_callback-Resumes :
      IsLevel h.privilege_level
      → Returns
          (raise_trap_raw h 3 cause tval)
          (λ trapped. Returns (mret_callback trapped) (Resumes h))
  unfolding raise_trap_raw setup_mmode_trap store mret_callback adjust_mstatus_upon_mret
      adjust_pc_upon_mret
  mret_callback-Resumes level =
      let known : (h.privilege_level == 0 || h.privilege_level == 1 || h.privilege_level == 3)
          ≡ true =
        ground (arith, level) in
      rw known (refl, refl, refl, refl, refl, refl, refl)

  pub sret_callback-Resumes :
      h.privilege_level ≤ 1
      → Returns
          (raise_trap_raw h 1 cause tval)
          (λ trapped. Returns (sret_callback trapped) (Resumes h))
  unfolding raise_trap_raw setup_smode_trap store sret_callback adjust_mstatus_upon_sret
      adjust_pc_upon_sret
  sret_callback-Resumes level =
      let one_bit : h.privilege_level % 2 ≡ h.privilege_level = omega arith in
      let known : (h.privilege_level == 0 || h.privilege_level == 1) ≡ true =
        ground (arith, level) in
      rw (one_bit, known) (refl, refl, refl, refl, refl, refl, refl)
