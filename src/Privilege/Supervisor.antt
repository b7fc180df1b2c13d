-- ===== src/Privilege/Supervisor.antt =====
-- sandbox/csr_supervisor_level.c, and `sfence_vma_callback` of translate_privileged_instr.c.
use hyrule.Prelude.{ℕ, ◌+◌, ◌*◌, ◌/◌, ◌%◌, ◌^◌, bit_or, none, some}
use hyrule.Privilege.{PrivilegedHart}
use hyrule.Privilege.Tlb.{invalidate_tlb}
use hyrule.Privilege.Trap.{flushed}
use hyrule.Privilege.Csr.{CsrEntry, wpri_mask_all, blob_entry, write_blob, bit_at}

abbrev pub scounteren_csr_entry : CsrEntry
scounteren_csr_entry = blob_entry 0x106 wpri_mask_all

abbrev pub sfence_vma_callback : PrivilegedHart → PrivilegedHart
sfence_vma_callback h =
    flushed (record h {
      itlb = invalidate_tlb h.itlb h.itlb_cap;
      dtlb = invalidate_tlb h.dtlb h.dtlb_cap;
    })

-- What follows the store is what `sfence_vma_callback` does.
unfoldable pub csr_satp_write : PrivilegedHart → ℕ → PrivilegedHart
csr_satp_write h value = sfence_vma_callback (write_blob 0x180 h value)

abbrev pub satp_csr_entry : CsrEntry
satp_csr_entry = record (blob_entry 0x180 wpri_mask_all) { write = some csr_satp_write }

-- A bit field of one bit, and the blob with the field set.
abbrev pub field_at : ℕ → ℕ → ℕ
field_at k dword = dword / 2 ^ k % 2

abbrev pub with_field : ℕ → ℕ → ℕ → ℕ
with_field k bit dword = dword / 2 ^ (k + 1) * 2 ^ (k + 1) + bit * 2 ^ k + dword % 2 ^ k

unfoldable pub csr_sie_write : PrivilegedHart → ℕ → PrivilegedHart
csr_sie_write h value = record h {
  ienable =
      with_field 9 (bit_at 9 value)
        (with_field 5 (bit_at 5 value) (with_field 1 (bit_at 1 value) h.ienable));
}

unfoldable pub csr_sie_read : PrivilegedHart → ℕ
csr_sie_read h =
    let e = h.ienable in
    let low = bit_or (bit_or 0 (field_at 0 e * 2 ^ 0)) (field_at 1 e * 2 ^ 1) in
    let middle = bit_or (bit_or low (field_at 4 e * 2 ^ 4)) (field_at 5 e * 2 ^ 5) in
    bit_or (bit_or middle (field_at 8 e * 2 ^ 8)) (field_at 9 e * 2 ^ 9)

abbrev pub sie_csr_entry : CsrEntry
sie_csr_entry = record {
  wpri_mask = 0x00000222;
  write = some csr_sie_write;
  read = some (λ h. (h, csr_sie_read h));
  reset = none;
}

unfoldable pub csr_sip_write : PrivilegedHart → ℕ → PrivilegedHart
csr_sip_write h value = record h { ipending = with_field 1 (bit_at 1 value) h.ipending }

unfoldable pub csr_sip_read : PrivilegedHart → ℕ
csr_sip_read h =
    let p = h.ipending in
    bit_or (bit_or (bit_or 0 (field_at 1 p * 2 ^ 1)) (field_at 5 p * 2 ^ 5)) (field_at 9 p * 2 ^ 9)

abbrev pub sip_csr_entry : CsrEntry
sip_csr_entry = record {
  wpri_mask = 0x00000222;
  write = some csr_sip_write;
  read = some (λ h. (h, csr_sip_read h));
  reset = none;
}

unfoldable pub csr_sstatus_write : PrivilegedHart → ℕ → PrivilegedHart
csr_sstatus_write h value = record h {
  status = record (h.status) {
    uie = bit_at 0 value;
    sie = bit_at 1 value;
    upie = bit_at 4 value;
    spie = bit_at 5 value;
    spp = bit_at 8 value;
  };
}

unfoldable pub csr_sstatus_read : PrivilegedHart → ℕ
csr_sstatus_read h =
    let s = h.status in
    let low = bit_or (bit_or 0 (s.uie * 2 ^ 0)) (s.sie * 2 ^ 1) in
    bit_or (bit_or (bit_or low (s.upie * 2 ^ 4)) (s.spie * 2 ^ 5)) (s.spp * 2 ^ 8)

abbrev pub sstatus_csr_entry : CsrEntry
sstatus_csr_entry = record {
  wpri_mask = 0x00000133;
  write = some csr_sstatus_write;
  read = some (λ h. (h, csr_sstatus_read h));
  reset = none;
}

abbrev pub stvec_csr_entry : CsrEntry
stvec_csr_entry = blob_entry 0x105 wpri_mask_all

abbrev pub sscratch_csr_entry : CsrEntry
sscratch_csr_entry = blob_entry 0x140 wpri_mask_all

abbrev pub sepc_csr_entry : CsrEntry
sepc_csr_entry = blob_entry 0x141 wpri_mask_all

abbrev pub stval_csr_entry : CsrEntry
stval_csr_entry = blob_entry 0x143 wpri_mask_all

abbrev pub scause_csr_entry : CsrEntry
scause_csr_entry = blob_entry 0x142 wpri_mask_all
