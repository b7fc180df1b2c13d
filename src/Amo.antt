-- ===== src/Amo.antt =====
-- sandbox/translate_amo.c: the functions that the block of an AMO instruction calls, on the registers,
-- the guest's memory and the table of reservations.
pub mod Refines
pub mod Table
pub mod Reserve
mod Tests
use hyrule.Prelude.{
  ℕ, zero, suc, ◌+◌, ◌*◌, ◌/◌, ◌%◌, ◌^◌, Bool, true, false, ◌&&◌, not, Option, none, some,
}
use hyrule.Prelude.{List, [], ◌∷◌, ◌==◌, ltb, if◌then◌else◌, get_or, set, bit_and, bit_or, bit_xor}
use hyrule.Hart.{Hart, Mmu}

abbrev pub max_reservation_items : ℕ
max_reservation_items = 16

-- `struct address_reservation_item`.
pub record Reservation : Type 0 where
  pub addr : ℕ
  pub valid : Bool
  pub hartid : ℕ

-- The hart with its id, and the file's two variables.
pub record AmoState (M : Type 0) : Type 0 where
  pub hart : Hart M
  pub hart_id : ℕ
  pub reservations : List Reservation
  pub next_pointer : ℕ

abbrev pub and_then : {A B : Type 0} → Option A → (A → Option B) → Option B
and_then none next = none
and_then (some a) next = next a

-- The first item that passes the test, by its index; the length of the list if none does.
unfoldable pub first_item : (Reservation → Bool) → List Reservation → ℕ
first_item test [] = 0
first_item test (item ∷ items) = if test item then 0 else suc (first_item test items)

-- A valid reservation of this hart for the address.
abbrev pub reserves : ℕ → ℕ → Reservation → Bool
reserves hart_id addr item = item.valid && ((item.addr == addr) && (item.hartid == hart_id))

module _ {M : Type 0} where
  abbrev pub put_reg : AmoState M → ℕ → ℕ → AmoState M
  put_reg s rd v = record s { hart = record s.hart { regs = set s.hart.regs rd v } }

  -- A free item, or else the one that `next_pointer` has come to.
  abbrev pub chosen_item : AmoState M → ℕ
  chosen_item s =
      let idx = first_item (λ item. not item.valid) s.reservations in
      if ltb idx max_reservation_items then idx else s.next_pointer

  abbrev pub reserve : AmoState M → ℕ → AmoState M
  reserve s addr = record s {
    reservations =
        set s.reservations (chosen_item s)
          (record { addr = addr; valid = true; hartid = s.hart_id % 2 ^ 8 });
    next_pointer = (chosen_item s + 1) % max_reservation_items;
  }

  abbrev pub clear_item : AmoState M → ℕ → AmoState M
  clear_item s idx = record s {
    reservations =
        set s.reservations idx
          (record (get_or s.reservations idx (record { addr = 0; valid = false; hartid = 0 })) {
            valid = false;
          });
  }

  -- The block behind the call: `RESET_ZERO_REGISTER()` and `PROCEED_TO_NEXT_INSTRUCTION()`.
  abbrev pub after_slowpath : AmoState M → AmoState M
  after_slowpath s = record s {
    hart = record s.hart { regs = set s.hart.regs 0 0; pc = (s.hart.pc + 4) % 2 ^ 32 };
  }

module _ {M : Type 0} (mmu : Mmu M) where
  -- `mmu_read32_aligned` and `mmu_write32_aligned` of mmu.c; an exception does not return.
  abbrev pub mmu_read32_aligned : M → ℕ → Option ℕ
  mmu_read32_aligned g location = if location % 4 == 0 then mmu.read32 g location else none

  abbrev pub mmu_write32_aligned : M → ℕ → ℕ → Option M
  mmu_write32_aligned g location value =
      if location % 4 == 0 then mmu.write32 g location value else none

  abbrev pub write_guest : AmoState M → ℕ → ℕ → Option (AmoState M)
  write_guest s location value =
      and_then (mmu_write32_aligned s.hart.guest location value)
        (λ g. some (record s { hart = record s.hart { guest = g } }))

  -- What the `amo*_slowpath` functions share: `rs1` and `rs2` are copied first, and what is written is
  -- taken from the destination register and `rs2`.
  abbrev pub read_modify_write : (ℕ → ℕ → ℕ) → AmoState M → ℕ → ℕ → ℕ → Option (AmoState M)
  read_modify_write modify s rs1_index rs2_index rd_index =
      and_then (mmu_read32_aligned s.hart.guest (get_or s.hart.regs rs1_index 0)) (λ v.
        write_guest (put_reg s rd_index v) (get_or s.hart.regs rs1_index 0) (
          modify (get_or (set s.hart.regs rd_index v) rd_index 0) (get_or s.hart.regs rs2_index 0)))

  unfoldable pub amoadd_slowpath : AmoState M → ℕ → ℕ → ℕ → Option (AmoState M)
  amoadd_slowpath = read_modify_write (λ rd rs2. (rd + rs2) % 2 ^ 32)

  unfoldable pub amoswap_slowpath : AmoState M → ℕ → ℕ → ℕ → Option (AmoState M)
  amoswap_slowpath = read_modify_write (λ rd rs2. rs2)

  unfoldable pub amoxor_slowpath : AmoState M → ℕ → ℕ → ℕ → Option (AmoState M)
  amoxor_slowpath = read_modify_write bit_xor

  unfoldable pub amoor_slowpath : AmoState M → ℕ → ℕ → ℕ → Option (AmoState M)
  amoor_slowpath = read_modify_write bit_or

  unfoldable pub amoand_slowpath : AmoState M → ℕ → ℕ → ℕ → Option (AmoState M)
  amoand_slowpath = read_modify_write bit_and

  unfoldable pub amomaxu_slowpath : AmoState M → ℕ → ℕ → ℕ → Option (AmoState M)
  amomaxu_slowpath = read_modify_write (λ rd rs2. if ltb rs2 rd then rd else rs2)

  unfoldable pub lr_slowpath : AmoState M → ℕ → ℕ → ℕ → Option (AmoState M)
  lr_slowpath s rs1_index rs2_index rd_index =
      and_then (mmu_read32_aligned s.hart.guest (get_or s.hart.regs rs1_index 0))
        (λ v. some (reserve (put_reg s rd_index v) (get_or s.hart.regs rs1_index 0)))

  unfoldable pub sc_slowpath : AmoState M → ℕ → ℕ → ℕ → Option (AmoState M)
  sc_slowpath s rs1_index rs2_index rd_index =
      let rs1 = get_or s.hart.regs rs1_index 0 in
      let idx = first_item (reserves s.hart_id rs1) s.reservations in
      if ltb idx max_reservation_items
      then and_then (write_guest (put_reg s rd_index 0) rs1 (get_or s.hart.regs rs2_index 0))
          (λ d. some (clear_item d idx))
      else some (put_reg s rd_index 1)

  -- `none` for the other codes, which are not to be reached.
  unfoldable pub amo_instruction_slowpath : AmoState M → ℕ → ℕ → ℕ → ℕ → Option (AmoState M)
  amo_instruction_slowpath s rs1_index rs2_index rd_index funct5 =
      if funct5 == 0x0
      then amoadd_slowpath s rs1_index rs2_index rd_index
      else if funct5 == 0x1
      then amoswap_slowpath s rs1_index rs2_index rd_index
      else if funct5 == 0x2
      then lr_slowpath s rs1_index rs2_index rd_index
      else if funct5 == 0x3
      then sc_slowpath s rs1_index rs2_index rd_index
      else if funct5 == 0x4
      then amoxor_slowpath s rs1_index rs2_index rd_index
      else if funct5 == 0x8
      then amoor_slowpath s rs1_index rs2_index rd_index
      else if funct5 == 0xc
      then amoand_slowpath s rs1_index rs2_index rd_index
      else if funct5 == 0x1c
      then amomaxu_slowpath s rs1_index rs2_index rd_index
      else none

  unfoldable pub amo_instruction : AmoState M → ℕ → ℕ → ℕ → ℕ → Option (AmoState M)
  amo_instruction s rs1_index rs2_index rd_index funct5 =
      and_then (amo_instruction_slowpath s rs1_index rs2_index rd_index funct5)
        (λ d. some (after_slowpath d))
