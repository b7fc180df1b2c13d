-- ===== src/Privilege/Trap/Raises.antt =====
-- What a trap of sandbox/hart_trap.c leaves, and which level an exception or an interrupt goes to.
use native.Mathlib.Nat.{one-le-pow}
use hyrule.Prelude.{
  ℕ, ◌+◌, ◌-◌, ◌*◌, ◌/◌, ◌%◌, ◌^◌, ◌≤◌, ◌<◌, ◌≡◌, refl, ◌≢◌, ◌↔◌, ◌⊎◌, inl, inr, arith,
}
use hyrule.Prelude.{bit_and, true, Bool-cases, ◌&&◌}
use hyrule.Prelude.{ltb, leb, ◌==◌, if◌then◌else◌}
use hyrule.Prelude.Bits.{bit_and_mask, bit_and_power}
use hyrule.Prelude.Masks.{bit_and_align}
use hyrule.Prelude.Returns.{Returns, Returns-map}
use hyrule.Cache.Memory.{Array, store}
use hyrule.Privilege.{PrivilegedHart, IsLevel}
use hyrule.Privilege.Trap.{
  trap_vector, setup_mmode_trap, setup_smode_trap, raise_trap_raw, exception_target_privilege_level,
  raise_exception_internal,
}

-- After the RISC-V manual: the base, and for an interrupt in vectored mode four bytes for each
-- number below it.
abbrev pub handler_address : ℕ → ℕ → ℕ
handler_address tvec cause =
    if tvec % 2 == 1 && leb (2 ^ 31) cause
    then (tvec / 4 * 4 + (cause - 2 ^ 31) * 4) % 2 ^ 32
    else tvec / 4 * 4

trap_vector-handler_address :
    (tvec cause : ℕ)
    → tvec < 2 ^ 32
    → cause < 2 ^ 32
    → trap_vector tvec cause ≡ handler_address tvec cause
unfolding trap_vector
trap_vector-handler_address tvec cause fits cause_fits =
    let lowest : bit_and tvec 1 ≡ tvec % 2 = bit_and_mask 1 tvec in
    let top : bit_and cause 2147483648 ≡ cause / 2147483648 % 2 * 2147483648 =
      bit_and_power 31 cause in
    let number : bit_and cause 2147483647 ≡ cause % 2147483648 = bit_and_mask 31 cause in
    let base : bit_and tvec 4294967292 ≡ tvec / 4 * 4 = bit_and_align 2 30 tvec (omega arith) in
    rw (lowest, top, number, base) (ground arith)

-- The trap is taken at the level: its cause, value and return address stand in the level's CSRs, the
-- pc is the handler's, the registers are as they were and the translation cache is empty.
abbrev pub Traps : PrivilegedHart → ℕ → ℕ → ℕ → PrivilegedHart → Type 0
Traps h level cause tval next =
    (next.privilege_level ≡ level)
    × (next.csrs (256 * level + 0x42) ≡ cause)
    × (next.csrs (256 * level + 0x43) ≡ tval)
    × (next.csrs (256 * level + 0x41) ≡ h.pc)
    × (next.pc ≡ handler_address (h.csrs (256 * level + 0x05)) cause)
    × (next.registers ≡ h.registers)
    × (next.cache.nr_translated_instructions ≡ 0)

pub Traps-itself :
    (h : PrivilegedHart) (cause tval level : ℕ) (next : PrivilegedHart)
    → Traps h level cause tval next
    → Traps h next.privilege_level cause tval next
Traps-itself h cause tval level next (e, cause_is, value_is, from, to, same, emptied) =
    rw e (refl, cause_is, value_is, from, to, same, emptied)

-- Each CSR holds a word.
abbrev pub HoldsWords : Array ℕ → Type 0
HoldsWords csrs = (i : ℕ) → csrs i < 2 ^ 32

module _ (h : PrivilegedHart) (cause tval : ℕ) (words : HoldsWords h.csrs)
    (cause_fits : cause < 2 ^ 32) where
  pub raise_machine-Traps : Returns (raise_trap_raw h 3 cause tval) (Traps h 3 cause tval)
  unfolding raise_trap_raw setup_mmode_trap store
  raise_machine-Traps = (
    refl,
    refl,
    refl,
    refl,
    trap_vector-handler_address (h.csrs 0x305) cause (words 0x305) cause_fits,
    refl,
    refl,
  )

  pub raise_supervisor-Traps : Returns (raise_trap_raw h 1 cause tval) (Traps h 1 cause tval)
  unfolding raise_trap_raw setup_smode_trap store
  raise_supervisor-Traps = (
    refl,
    refl,
    refl,
    refl,
    trap_vector-handler_address (h.csrs 0x105) cause (words 0x105) cause_fits,
    refl,
    refl,
  )

-- The exception goes to the supervisor exactly if it comes from below the machine's level and its
-- bit in medeleg is set; it goes to no lower level than it comes from.
abbrev pub Excepts : PrivilegedHart → ℕ → ℕ → PrivilegedHart → Type 0
Excepts h cause tval next =
    ((next.privilege_level ≡ 1) ↔ ((h.privilege_level ≢ 3) × (h.csrs 0x302 / 2 ^ cause % 2 ≡ 1)))
    × (h.privilege_level ≤ next.privilege_level)
    × Traps h next.privilege_level cause tval next

bit_set : (k a : ℕ) → (bit_and a (2 ^ k) == 0) ≡ (a / 2 ^ k % 2 == 0)
bit_set k a = rw (bit_and_power k a) (elim (Bool-cases (a / 2 ^ k % 2 == 0)) [
  | inl clear ↦ let z : a / 2 ^ k % 2 ≡ 0 = ground arith in rw z (ground arith)
  | inr set ↦ let z : a / 2 ^ k % 2 ≡ 1 = ground arith in rw z (ground (arith, one-le-pow k 2))
])

module _ (h : PrivilegedHart) (cause tval : ℕ) (words : HoldsWords h.csrs)
    (level : IsLevel h.privilege_level) where
  exception_target-cases :
      (exception_target_privilege_level h cause ≡ 1)
        × (h.privilege_level ≢ 3)
        × (h.csrs 0x302 / 2 ^ cause % 2 ≡ 1)
      ⊎ (exception_target_privilege_level h cause ≡ 3)
        × ((h.privilege_level ≢ 3) × (h.csrs 0x302 / 2 ^ cause % 2 ≡ 1) → ⊥)
  unfolding exception_target_privilege_level
  exception_target-cases =
      rw (bit_set cause (h.csrs 0x302)) (elim (Bool-cases (h.privilege_level == 3)) [
        | inl machine ↦ rw machine (inr (refl, λ (below, set). below (ground arith)))
        | inr lower ↦ elim (Bool-cases (h.csrs 0x302 / 2 ^ cause % 2 == 0)) [
          | inl clear ↦ rw (lower, clear) (inr (refl, λ (below, set). ground arith))
          | inr set ↦ rw (lower, set) (inl (refl, λ e. ground arith, ground arith))
        ]
      ])

  -- In a hart at the user's, the supervisor's or the machine's level, whose CSRs hold words, with a
  -- cause below 16: the exception is raised, without a failed assertion. It goes to the supervisor
  -- exactly if it comes from below the machine's level and its bit in medeleg is set, else to the
  -- machine, and so never to a lower level than it comes from; that level's CSRs then hold the
  -- cause, the value and the pc, the pc is the handler's address, the registers are as they were,
  -- and the translation cache is empty.
  pub raise_exception_internal-Excepts :
      cause < 16 → Returns (raise_exception_internal h cause tval) (Excepts h cause tval)
  unfolding raise_exception_internal
  raise_exception_internal-Excepts small =
      let allowed : ltb cause 16 ≡ true = ground arith in
      rw allowed (elim exception_target-cases [
        | inl (e, below, set) ↦ rw e (
            Returns-map {P = Traps h 1 cause tval} {Q = Excepts h cause tval}
              (raise_trap_raw h 1 cause tval)
              (raise_supervisor-Traps h cause tval words (omega arith))
              (λ next traps. (
                (λ z. (below, set), λ z. traps.0),
                ground (arith, level, below, traps.0),
                Traps-itself h cause tval 1 next traps,
              )))
        | inr (e, not_delegated) ↦ rw e (
            Returns-map {P = Traps h 3 cause tval} {Q = Excepts h cause tval}
              (raise_trap_raw h 3 cause tval) (raise_machine-Traps h cause tval words (omega arith))
              (λ next traps. (
                (λ z. absurd (ground (arith, traps.0)), λ z. absurd (not_delegated z)),
                ground (arith, level, traps.0),
                Traps-itself h cause tval 3 next traps,
              )))
      ])
