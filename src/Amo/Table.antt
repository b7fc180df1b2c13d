-- ===== src/Amo/Table.antt =====
-- Every AMO instruction keeps the table of reservations in its bounds.
use hyrule.Prelude.{ℕ, ◌+◌, ◌%◌, ◌^◌, ◌<◌, ◌≡◌, ◌∙◌, arith}
use hyrule.Prelude.{Bool, true, false, Option, none, some, length}
use hyrule.Prelude.{bit_and, bit_or, bit_xor, ◌==◌, ltb, if◌then◌else◌, get_or, set, length-set}
use mathlib.Core.Path.{subst}
use hyrule.Hart.{Mmu}
use hyrule.Amo.{
  AmoState, max_reservation_items, lr_slowpath, sc_slowpath, first_item, chosen_item, reserve,
  reserves, read_modify_write, amo_instruction_slowpath, amo_instruction, after_slowpath,
  amoadd_slowpath, amoswap_slowpath, amoxor_slowpath, amoor_slowpath, amoand_slowpath,
  amomaxu_slowpath, clear_item, put_reg, write_guest, mmu_read32_aligned, mmu_write32_aligned,
  and_then,
}

-- The table has its sixteen items, and the pointer is one of them.
pub record IsTable {M : Type 0} (s : AmoState M) : Type 0 where
  pub items : length s.reservations ≡ max_reservation_items
  pub pointer : s.next_pointer < max_reservation_items

module _ {M : Type 0} (mmu : Mmu M) where
  pub chosen_below : (s : AmoState M) → IsTable s → chosen_item s < max_reservation_items
  chosen_below s ok = ground (arith, ok.pointer)

  reserve-IsTable : (s : AmoState M) (addr : ℕ) → IsTable s → IsTable (reserve s addr)
  reserve-IsTable s addr ok = record {
    items = length-set s.reservations (chosen_item s) _ ∙ ok.items;
    pointer = omega arith;
  }

  -- What is left, if anything is, has this property.
  abbrev Leaves : Option (AmoState M) → (AmoState M → Type 0) → Type 0
  Leaves none P = Unit
  Leaves (some s) P = P s

  if-Leaves :
      (P : AmoState M → Type 0) (b : Bool) (x y : Option (AmoState M))
      → Leaves x P
      → Leaves y P
      → Leaves (if b then x else y) P
  if-Leaves P true x y p q = p
  if-Leaves P false x y p q = q

  bind-Leaves :
      {A : Type 0} (P : AmoState M → Type 0) (o : Option A) (next : A → Option (AmoState M))
      → ((a : A) → Leaves (next a) P)
      → Leaves (and_then o next) P
  bind-Leaves P none next f = tt
  bind-Leaves P (some a) next f = f a

  modify-IsTable :
      (modify : ℕ → ℕ → ℕ) (s : AmoState M) (rs1 rs2 rd : ℕ)
      → IsTable s
      → Leaves (read_modify_write mmu modify s rs1 rs2 rd) IsTable
  modify-IsTable modify s rs1 rs2 rd ok =
      bind-Leaves IsTable (mmu_read32_aligned mmu s.hart.guest (get_or s.hart.regs rs1 0)) _ (λ v.
        bind-Leaves IsTable
          (mmu_write32_aligned mmu s.hart.guest (get_or s.hart.regs rs1 0)
            (modify (get_or (set s.hart.regs rd v) rd 0) (get_or s.hart.regs rs2 0)))
          _ (λ g. record { items = ok.items; pointer = ok.pointer }))

  lr-IsTable :
      (s : AmoState M) (rs1 rs2 rd : ℕ) → IsTable s → Leaves (lr_slowpath mmu s rs1 rs2 rd) IsTable
  unfolding lr_slowpath
  lr-IsTable s rs1 rs2 rd ok =
      bind-Leaves IsTable (mmu_read32_aligned mmu s.hart.guest (get_or s.hart.regs rs1 0)) _ (λ v.
        reserve-IsTable (put_reg s rd v) (get_or s.hart.regs rs1 0)
          (record { items = ok.items; pointer = ok.pointer }))

  then-Leaves :
      (P Q : AmoState M → Type 0) (o : Option (AmoState M))
      (next : AmoState M → Option (AmoState M))
      → Leaves o P
      → ((s : AmoState M) → P s → Leaves (next s) Q)
      → Leaves (and_then o next) Q
  then-Leaves P Q none next p f = tt
  then-Leaves P Q (some s) next p f = f s p

  clear-IsTable : (s : AmoState M) (idx : ℕ) → IsTable s → IsTable (clear_item s idx)
  clear-IsTable s idx ok = record {
    items = length-set s.reservations idx _ ∙ ok.items;
    pointer = ok.pointer;
  }

  sc-IsTable :
      (s : AmoState M) (rs1 rs2 rd : ℕ) → IsTable s → Leaves (sc_slowpath mmu s rs1 rs2 rd) IsTable
  unfolding sc_slowpath
  sc-IsTable s rs1 rs2 rd ok =
      let addr = get_or s.hart.regs rs1 0 in
      let idx = first_item (reserves s.hart_id addr) s.reservations in
      let value = get_or s.hart.regs rs2 0 in
      if-Leaves IsTable (ltb idx max_reservation_items)
        (and_then (write_guest mmu (put_reg s rd 0) addr value) (λ d. some (clear_item d idx)))
        (some (put_reg s rd 1))
        (then-Leaves IsTable IsTable (write_guest mmu (put_reg s rd 0) addr value)
          (λ d. some (clear_item d idx))
          (bind-Leaves IsTable (mmu_write32_aligned mmu s.hart.guest addr value) _
            (λ g. record { items = ok.items; pointer = ok.pointer }))
          (λ d. clear-IsTable d idx))
        (record { items = ok.items; pointer = ok.pointer })

  slowpath-IsTable :
      (s : AmoState M) (rs1 rs2 rd funct5 : ℕ)
      → IsTable s
      → Leaves (amo_instruction_slowpath mmu s rs1 rs2 rd funct5) IsTable
  unfolding amo_instruction_slowpath amoadd_slowpath amoswap_slowpath amoxor_slowpath amoor_slowpath
      amoand_slowpath amomaxu_slowpath
  slowpath-IsTable s rs1 rs2 rd funct5 ok =
      if-Leaves IsTable (funct5 == 0) _ _ (modify-IsTable (λ m x. (m + x) % 2 ^ 32) s rs1 rs2 rd ok)
        (if-Leaves IsTable (funct5 == 1) _ _ (modify-IsTable (λ m x. x) s rs1 rs2 rd ok) (
          if-Leaves IsTable (funct5 == 2) _ _ (lr-IsTable s rs1 rs2 rd ok) (
            if-Leaves IsTable (funct5 == 3) _ _ (sc-IsTable s rs1 rs2 rd ok) (
              if-Leaves IsTable (funct5 == 4) _ _ (modify-IsTable bit_xor s rs1 rs2 rd ok) (
                if-Leaves IsTable (funct5 == 8) _ _ (modify-IsTable bit_or s rs1 rs2 rd ok) (
                  if-Leaves IsTable (funct5 == 12) _ _ (modify-IsTable bit_and s rs1 rs2 rd ok) (
                    if-Leaves IsTable (funct5 == 28) _ _
                      (modify-IsTable (λ m x. if ltb x m then m else x) s rs1 rs2 rd ok) tt)))))))

  -- Every AMO instruction that returns, from a table of sixteen reservations with its pointer in its
  -- bounds, leaves such a table again.
  pub amo_instruction-IsTable :
      (s : AmoState M) (rs1 rs2 rd funct5 : ℕ) (d : AmoState M)
      → IsTable s
      → amo_instruction mmu s rs1 rs2 rd funct5 ≡ some d
      → IsTable d
  unfolding amo_instruction
  amo_instruction-IsTable s rs1 rs2 rd funct5 d ok e =
      subst (λ o. Leaves o IsTable) e
        (then-Leaves IsTable IsTable (amo_instruction_slowpath mmu s rs1 rs2 rd funct5)
          (λ a. some (after_slowpath a)) (slowpath-IsTable s rs1 rs2 rd funct5 ok)
          (λ a table. record { items = table.items; pointer = table.pointer }))
