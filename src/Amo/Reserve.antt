-- ===== src/Amo/Reserve.antt =====
-- The table of reservations: `lr` makes one that `sc` finds, and without one `sc` is refused.
use hyrule.Prelude.{ℕ, zero, suc, ◌%◌, ◌^◌, ◌≤◌, ◌<◌, ◌≡◌, refl, ap, arith}
use hyrule.Prelude.{Bool, true, false, some, inl, inr, List, [], ◌∷◌, length}
use hyrule.Prelude.{lt→ltb, get_or, set, Bool-cases}
use hyrule.Prelude.Returns.{Returns}
use hyrule.Hart.{Mmu}
use hyrule.Amo.{
  AmoState, Reservation, lr_slowpath, sc_slowpath, first_item, chosen_item, reserve, reserves,
  put_reg, mmu_read32_aligned, mmu_write32_aligned, and_then,
}
use hyrule.Amo.Table.{IsTable, chosen_below}

-- An item that passes is found, at or before its index.
first_item-set :
    (test : Reservation → Bool) (xs : List Reservation) (i : ℕ) (v : Reservation)
    → i < length xs
    → test v ≡ true
    → first_item test (set xs i v) ≤ i
unfolding first_item
first_item-set test [] i v lt e = absurd (omega arith)
first_item-set test (x ∷ xs) zero v lt e = rw e (omega arith)
first_item-set test (x ∷ xs) (suc i) v lt e = elim (Bool-cases (test x)) [
  | inl passes ↦ rw passes (omega arith)
  | inr not_this ↦ rw not_this (omega (arith, first_item-set test xs i v (omega arith) e))
]

abbrev pub no_item : Reservation
no_item = record { addr = 0; valid = false; hartid = 0 }

-- None that passes, none found.
first_item-none :
    (test : Reservation → Bool) (xs : List Reservation)
    → ((i : ℕ) → i < length xs → test (get_or xs i no_item) ≡ false)
    → first_item test xs ≡ length xs
unfolding first_item
first_item-none test [] none_passes = refl
first_item-none test (x ∷ xs) none_passes =
    rw (none_passes 0 (omega arith))
      (ap suc (first_item-none test xs (λ i lt. none_passes (suc i) (omega arith))))

module _ {M : Type 0} (mmu : Mmu M) where
  -- The item that `lr` writes.
  abbrev reserved : AmoState M → ℕ → Reservation
  reserved s addr = record { addr = addr; valid = true; hartid = s.hart_id % 2 ^ 8 }

  reserves-reserved :
      (s : AmoState M) (addr : ℕ)
      → s.hart_id < 2 ^ 8
      → reserves s.hart_id addr (reserved s addr) ≡ true
  reserves-reserved s addr small = ground arith

  -- With a table of sixteen reservations, however full, whose pointer is in its bounds, and a hart
  -- id of eight bits: after an lr on an aligned address that is read, an sc of the same hart to the
  -- same address, where the memory takes the word, succeeds; it writes the word and zero to its
  -- destination register, over what lr left in its own.
  pub lr-then_sc :
      (s : AmoState M) (rs1 rd again rs2 result v : ℕ) (g : M)
      → IsTable s
      → s.hart_id < 2 ^ 8
      → mmu_read32_aligned mmu s.hart.guest (get_or s.hart.regs rs1 0) ≡ some v
      → get_or (set s.hart.regs rd v) again 0 ≡ get_or s.hart.regs rs1 0
      → mmu_write32_aligned mmu s.hart.guest
          (get_or s.hart.regs rs1 0)
          (get_or (set s.hart.regs rd v) rs2 0)
        ≡ some g
      → Returns
          (and_then (lr_slowpath mmu s rs1 0 rd) (λ d. sc_slowpath mmu d again rs2 result))
          (λ d. d.hart ≡ record s.hart { regs = set (set s.hart.regs rd v) result 0; guest = g })
  unfolding lr_slowpath sc_slowpath
  lr-then_sc s rs1 rd again rs2 result v g ok small read same write =
      let addr = get_or s.hart.regs rs1 0 in
      let found : first_item (reserves s.hart_id addr) (reserve (put_reg s rd v) addr).reservations
          < 16 =
        omega (
          arith,
          chosen_below mmu s ok,
          first_item-set (reserves s.hart_id addr) s.reservations (chosen_item s) (reserved s addr)
              (omega (arith, chosen_below mmu s ok, ok.items)) (reserves-reserved s addr small),
        ) in
      rw (read, same, lt→ltb _ _ found, write) refl

  -- With a table of sixteen reservations of which none is a valid one of the hart for the address in
  -- the first register: sc changes nothing but its destination register, which gets one.
  pub sc_slowpath-refused :
      (s : AmoState M) (rs1 rs2 rd : ℕ)
      → IsTable s
      → ((i : ℕ)
          → i < length s.reservations
          → reserves s.hart_id (get_or s.hart.regs rs1 0) (get_or s.reservations i no_item) ≡ false)
      → sc_slowpath mmu s rs1 rs2 rd ≡ some (put_reg s rd 1)
  unfolding sc_slowpath
  sc_slowpath-refused s rs1 rs2 rd ok none_there =
      rw
        (
          first_item-none (reserves s.hart_id (get_or s.hart.regs rs1 0)) s.reservations none_there,
          ok.items,
        )
        refl
