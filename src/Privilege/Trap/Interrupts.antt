-- ===== src/Privilege/Trap/Interrupts.antt =====
-- Which interrupts sandbox/hart_interrupt.c delivers, and what holds behind a delivery.
use hyrule.Prelude.{ℕ, ◌+◌, ◌^◌, ◌≤◌, ◌<◌, ◌≡◌, refl, ◌⊎◌, inl, inr, arith}
use hyrule.Prelude.{bit_or, true, false, some}
use hyrule.Prelude.{ltb}
use hyrule.Prelude.{sym, ap, ◌∙◌, some-injective}
use hyrule.Prelude.Bits.{bit_or_fields}
use hyrule.Prelude.Returns.{Returns, Returns-map, Returns-both}
use hyrule.Privilege.{PrivilegedHart}
use hyrule.Privilege.Trap.{
  setup_mmode_trap, setup_smode_trap, raise_trap_raw, target_of_vector,
  interrupt_target_privilege_level, is_window_open, is_interrupt_deliverable, deliver_interrupt,
}
use hyrule.Privilege.Trap.Raises.{
  Traps, Traps-itself, HoldsWords, raise_machine-Traps, raise_supervisor-Traps,
}

-- An interrupt goes to no lower level than it comes from, and no interrupt that goes to the level
-- can be delivered on top of it.
abbrev pub Interrupts : PrivilegedHart → ℕ → PrivilegedHart → Type 0
Interrupts h vector next =
    (h.privilege_level ≤ next.privilege_level)
    × Traps h next.privilege_level (2 ^ 31 + vector) 0 next
    × ((other : ℕ)
        → other < 12
        → target_of_vector next other ≡ next.privilege_level
        → is_interrupt_deliverable next other ≡ some false)

module _ (h : PrivilegedHart) (vector : ℕ) (words : HoldsWords h.csrs) (small : vector < 12) where
  abbrev Masks : ℕ → PrivilegedHart → Type 0
  Masks level next = ((level ≡ 3) × (next.status.mie ≡ 0)) ⊎ ((level ≡ 1) × (next.status.sie ≡ 0))

  target_at :
      (next : PrivilegedHart) (other : ℕ)
      → other < 12
      → interrupt_target_privilege_level next other ≡ some (target_of_vector next other)
  unfolding interrupt_target_privilege_level
  target_at next other lt = let allowed : ltb other 12 ≡ true = ground arith in rw allowed refl

  deliverable_at :
      (next : PrivilegedHart) (other target : ℕ)
      → other < 12
      → target_of_vector next other ≡ target
      → is_interrupt_deliverable next other ≡ some (is_window_open next other target)
  unfolding is_interrupt_deliverable
  deliverable_at next other target lt e =
      rw (is_interrupt_deliverable, target_at next other lt, e) refl

  Masks-closed :
      (next : PrivilegedHart) (level other : ℕ)
      → Masks level next
      → is_window_open next other level ≡ false
  unfolding is_window_open
  Masks-closed next level other (inl (e, masked)) = rw e (ground (arith, masked))
  Masks-closed next level other (inr (e, masked)) = rw e (ground (arith, masked))

  taken :
      (level : ℕ) (next : PrivilegedHart)
      → h.privilege_level ≤ level
      → Traps h level (2 ^ 31 + vector) 0 next
      → Masks level next
      → Interrupts h vector next
  taken level next up traps masks =
      let e = traps.0 in
      (
        rw e up,
        Traps-itself h (2 ^ 31 + vector) 0 level next traps,
        λ other lt same.
            deliverable_at next other level lt (same ∙ e)
            ∙ ap some (Masks-closed next level other masks),
      )

  raise_machine-Masks : (cause tval : ℕ) → Returns (raise_trap_raw h 3 cause tval) (Masks 3)
  unfolding raise_trap_raw setup_mmode_trap
  raise_machine-Masks cause tval = inl (refl, refl)

  raise_supervisor-Masks : (cause tval : ℕ) → Returns (raise_trap_raw h 1 cause tval) (Masks 1)
  unfolding raise_trap_raw setup_smode_trap
  raise_supervisor-Masks cause tval = inr (refl, refl)

  open_above : (target : ℕ) → is_window_open h vector target ≡ true → h.privilege_level ≤ target
  unfolding is_window_open
  open_above target is_open = ground arith

  target_cases : (target_of_vector h vector ≡ 1) ⊎ (target_of_vector h vector ≡ 3)
  unfolding target_of_vector
  target_cases = ground arith

  delivered :
      (target : ℕ)
      → target_of_vector h vector ≡ target
      → (target ≡ 1) ⊎ (target ≡ 3)
      → h.privilege_level ≤ target
      → Returns (raise_trap_raw h target (2 ^ 31 + vector) 0) (Interrupts h vector)
  delivered target e (inl supervisor) up = rw supervisor (
      Returns-map _
        (Returns-both (Traps h 1 (2 ^ 31 + vector) 0) (Masks 1)
          (raise_trap_raw h 1 (2 ^ 31 + vector) 0)
          (raise_supervisor-Traps h (2 ^ 31 + vector) 0 words (omega arith))
          (raise_supervisor-Masks (2 ^ 31 + vector) 0))
        (λ next both. taken 1 next (omega arith) both.0 both.1))
  delivered target e (inr machine) up = rw machine (
      Returns-map _
        (Returns-both (Traps h 3 (2 ^ 31 + vector) 0) (Masks 3)
          (raise_trap_raw h 3 (2 ^ 31 + vector) 0)
          (raise_machine-Traps h (2 ^ 31 + vector) 0 words (omega arith))
          (raise_machine-Masks (2 ^ 31 + vector) 0))
        (λ next both. taken 3 next (omega arith) both.0 both.1))

  -- In a hart whose CSRs hold words, an interrupt below 12 that is deliverable: it is delivered,
  -- without a failed assertion, to no lower level than it comes from, with its cause and the pc in
  -- that level's CSRs and the pc at the handler's address, that of the vector in vectored mode; and
  -- behind that no interrupt that goes to the same level is deliverable.
  pub deliver_interrupt-Interrupts :
      is_interrupt_deliverable h vector ≡ some true
      → Returns (deliver_interrupt h vector) (Interrupts h vector)
  unfolding deliver_interrupt
  deliver_interrupt-Interrupts is_open =
      let cause : bit_or 2147483648 vector ≡ 2147483648 + vector =
        bit_or_fields 31 1 vector (omega arith) in
      let window : some (is_window_open h vector (target_of_vector h vector)) ≡ some true =
        sym (deliverable_at h vector (target_of_vector h vector) small refl) ∙ is_open in
      rw (deliver_interrupt, target_at h vector small, cause)
        (delivered (target_of_vector h vector) refl target_cases
          (open_above (target_of_vector h vector) (some-injective _ _ window)))
