-- ===== src/Privilege/Views.antt =====
-- `mstatus` and `sstatus` of sandbox/csr_machine_level.c and csr_supervisor_level.c, two views of
-- `struct status_control_blob`, as instructions write and read them, under the masks of their entries.
use hyrule.Prelude.{ℕ, ◌+◌, ◌*◌, ◌/◌, ◌%◌, ◌<◌, ◌≡◌, refl, ◌∙◌, arith, bit_and, inl, inr}
use hyrule.Prelude.{Bool-cases, ◌==◌}
use hyrule.Privilege.{PrivilegedHart}
use hyrule.Privilege.Csr.{CsrEntry, csr_mstatus_read, mstatus_csr_entry}
use hyrule.Privilege.Supervisor.{csr_sstatus_write, sstatus_csr_entry}
use hyrule.Privilege.Callback.{value_to_read, csr_write, with_register, csrrw_case}
use hyrule.Privilege.WpriMask.{machine_view, supervisor_view, mstatus_mask, sstatus_mask}
use hyrule.Privilege.StatusFields.{
  IsStatus, mstatus_raw, sstatus_of_mstatus, sstatus_raw, mstatus_of_sstatus,
}
use hyrule.Translate.Block.{Decoding}

-- The bits 1, 5 and 8, which both masks keep.
abbrev pub shared_view : ℕ → ℕ
shared_view w = w / 2 % 2 * 2 + w / 32 % 2 * 32 + w / 256 % 2 * 256

-- The value that an instruction reads.
abbrev pub read_of : CsrEntry → PrivilegedHart → ℕ
read_of csr h = (value_to_read csr h).1

-- A word written under the mask of an entry, in a hart h.
abbrev write_of : CsrEntry → PrivilegedHart → ℕ → PrivilegedHart
write_of csr h w = csr_write csr h (bit_and w csr.wpri_mask)

module _ (w : ℕ) where
  abbrev kept : ℕ
  kept = machine_view w

  -- What the machine's mask keeps, the callbacks keep and the masks keep again.
  nine_bits :
      kept % 4
        + kept / 8 % 2 * 8
        + kept / 16 % 4 * 16
        + kept / 128 % 4 * 128
        + kept / 2048 % 4 * 2048
      ≡ kept
  nine_bits = omega arith

  machine_again : machine_view kept ≡ kept
  machine_again = omega arith

  supervisor_again : supervisor_view (supervisor_view w) ≡ supervisor_view w
  supervisor_again = omega arith

  supervisor_shared : supervisor_view (supervisor_view kept) ≡ shared_view w
  supervisor_shared = omega arith

  mstatus_written :
      (h : PrivilegedHart)
      → (read_of mstatus_csr_entry (write_of mstatus_csr_entry h w) ≡ machine_view w)
        × (read_of sstatus_csr_entry (write_of mstatus_csr_entry h w) ≡ shared_view w)
  unfolding csr_write value_to_read
  mstatus_written h =
      let mask = mstatus_mask w in
      let raw = mstatus_raw h kept ∙ nine_bits in
      let again = mstatus_mask kept ∙ machine_again in
      let seen = sstatus_of_mstatus h kept in
      let shared = sstatus_mask (supervisor_view kept) ∙ supervisor_shared in
      (rw (mask, raw, again) refl, rw (mask, seen, shared) refl)

  module _ (h : PrivilegedHart) (own : IsStatus h.status) where
    abbrev both : ℕ
    both = supervisor_view w + h.status.mie * 8 + h.status.mpie * 128 + h.status.mpp * 2048

    machine_of_both :
        machine_view both
        ≡ shared_view w + h.status.mie * 8 + h.status.mpie * 128 + h.status.mpp * 2048
    machine_of_both =
        let (mie, mpie, mpp) : (h.status.mie < 2) × (h.status.mpie < 2) × (h.status.mpp < 4) =
          (own.mie_bit, own.mpie_bit, own.mpp_bits) in
        omega arith

    sstatus_written :
        (read_of sstatus_csr_entry (write_of sstatus_csr_entry h w) ≡ supervisor_view w)
        × (read_of mstatus_csr_entry (write_of sstatus_csr_entry h w)
            ≡ shared_view w + h.status.mie * 8 + h.status.mpie * 128 + h.status.mpp * 2048)
    unfolding csr_write value_to_read
    sstatus_written =
        let mask = sstatus_mask w in
        let raw = sstatus_raw h (supervisor_view w) own ∙ supervisor_again in
        let again = sstatus_mask (supervisor_view w) ∙ supervisor_again in
        let seen : csr_mstatus_read (csr_sstatus_write h (supervisor_view w)) ≡ both =
          rw (mstatus_of_sstatus h (supervisor_view w) own, supervisor_again) refl in
        let machine = mstatus_mask both ∙ machine_of_both in
        (rw (mask, raw, again) refl, rw (mask, seen, machine) refl)

module _ (h : PrivilegedHart) (dec : Decoding) (register_form : dec.funct3 ≡ 1) where
  -- For a csrrw that writes a register to mstatus, whatever its destination: afterwards an
  -- instruction reads mstatus as the bits 1, 3, 5, 7, 8, 11 and 12 of the value that the register
  -- had, at their places, and sstatus as the bits 1, 5 and 8.
  pub csr_mstatus-Views :
      (read_of mstatus_csr_entry (csrrw_case mstatus_csr_entry h dec)
        ≡ machine_view (h.registers dec.rs1_index))
      × (read_of sstatus_csr_entry (csrrw_case mstatus_csr_entry h dec)
          ≡ shared_view (h.registers dec.rs1_index))
  unfolding csrrw_case value_to_read
  csr_mstatus-Views = elim (Bool-cases (dec.rd_index == 0)) [
    | inl unused ↦ rw (register_form, unused) (mstatus_written (h.registers dec.rs1_index) h)
    | inr used ↦
        rw (register_form, used)
          (mstatus_written (h.registers dec.rs1_index)
            (with_register dec.rd_index h (read_of mstatus_csr_entry h)))
  ]

  -- In a hart whose status fields have their widths, for a csrrw that writes a register to sstatus,
  -- whatever its destination: afterwards an instruction reads sstatus as the bits 0, 1, 4, 5 and 8
  -- of the value that the register had, and mstatus as the bits 1, 5 and 8 with the fields mie, mpie
  -- and mpp as they were.
  pub csr_sstatus-Views :
      IsStatus h.status
      → (read_of sstatus_csr_entry (csrrw_case sstatus_csr_entry h dec)
          ≡ supervisor_view (h.registers dec.rs1_index))
        × (read_of mstatus_csr_entry (csrrw_case sstatus_csr_entry h dec)
            ≡ shared_view (h.registers dec.rs1_index)
              + h.status.mie * 8
              + h.status.mpie * 128
              + h.status.mpp * 2048)
  unfolding csrrw_case value_to_read
  csr_sstatus-Views own = elim (Bool-cases (dec.rd_index == 0)) [
    | inl unused ↦ rw (register_form, unused) (sstatus_written (h.registers dec.rs1_index) h own)
    | inr used ↦
        rw (register_form, used)
          (sstatus_written (h.registers dec.rs1_index)
            (with_register dec.rd_index h (read_of sstatus_csr_entry h)) own)
  ]
