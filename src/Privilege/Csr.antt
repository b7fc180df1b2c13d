-- ===== src/Privilege/Csr.antt =====
-- sandbox/csr.h, csr_machine_level.c, csr_machine_level_pmp.c, csr_misc.c, csr_supervisor_level.c and
-- csr_representation.c: the control and status registers. Logging is left out.
use hyrule.Prelude.{ℕ, ◌+◌, ◌-◌, ◌*◌, ◌/◌, ◌%◌, ◌^◌, bit_and, bit_or}
use hyrule.Prelude.{Option, none, some}
use hyrule.Cache.Memory.{store}
use hyrule.Privilege.{PrivilegedHart}

abbrev pub wpri_mask_all : ℕ
wpri_mask_all = 2 ^ 32 - 1

-- `struct csr_entry`, the blob apart; a callback that is a null pointer is `none`. A callback gets
-- the entry by its address.
pub record CsrEntry : Type 0 where
  pub wpri_mask : ℕ
  pub write : Option (PrivilegedHart → ℕ → PrivilegedHart)
  pub read : Option (PrivilegedHart → PrivilegedHart × ℕ)
  pub reset : Option (PrivilegedHart → PrivilegedHart)

-- `csr->csr_blob = value` and `return csr->csr_blob`.
abbrev pub write_blob : ℕ → PrivilegedHart → ℕ → PrivilegedHart
write_blob address h value = record h { csrs = store h.csrs address value }

abbrev pub read_blob : ℕ → PrivilegedHart → PrivilegedHart × ℕ
read_blob address h = (h, h.csrs address)

-- The entries whose callbacks are these two, and whose reset clears the blob.
abbrev pub blob_entry : ℕ → ℕ → CsrEntry
blob_entry address mask = record {
  wpri_mask = mask;
  write = some (write_blob address);
  read = some (read_blob address);
  reset = some (λ h. write_blob address h 0);
}

abbrev pub mscratch_csr_entry : CsrEntry
mscratch_csr_entry = record (blob_entry 0x340 wpri_mask_all) { reset = none }

abbrev pub misa_csr_entry : CsrEntry
misa_csr_entry = record {
  wpri_mask = wpri_mask_all;
  write = some (λ h value. h);
  read = some (read_blob 0x301);
  reset = some (λ h. write_blob 0x301 h (2 ^ 0 + 2 ^ 8 + 2 ^ 12 + 2 ^ 18 + 2 ^ 20 + 2 ^ 30));
}

abbrev pub mvendorid_csr_entry : CsrEntry
mvendorid_csr_entry = record {
  wpri_mask = wpri_mask_all;
  write = none;
  read = some (read_blob 0xf11);
  reset = some (λ h. write_blob 0xf11 h 0x60a);
}

abbrev pub mhartid_csr_entry : CsrEntry
mhartid_csr_entry = record {
  wpri_mask = wpri_mask_all;
  write = none;
  read = some (λ h. (h, h.hart_id));
  reset = none;
}

abbrev pub mtvec_csr_entry : CsrEntry
mtvec_csr_entry = blob_entry 0x305 0xfffffffd

abbrev pub mcounteren_csr_entry : CsrEntry
mcounteren_csr_entry = blob_entry 0x306 wpri_mask_all

abbrev pub mie_csr_entry : CsrEntry
mie_csr_entry = record {
  wpri_mask = 0x00000aaa;
  write = some (λ h value. record h { ienable = value });
  read = some (λ h. (h, h.ienable));
  reset = some (λ h. record h { ienable = 0 });
}

unfoldable pub csr_mip_write : PrivilegedHart → ℕ → PrivilegedHart
csr_mip_write h value = record h {
  ipending = bit_or (bit_and value 0xfffff777) (bit_and h.ipending 0x888);
}

abbrev pub mip_csr_entry : CsrEntry
mip_csr_entry = record {
  wpri_mask = 0x00000aaa;
  write = some csr_mip_write;
  read = some (λ h. (h, h.ipending));
  reset = some (λ h. record h { ipending = 0 });
}

abbrev pub medeleg_csr_entry : CsrEntry
medeleg_csr_entry = blob_entry 0x302 0xfffff7ff

abbrev pub mideleg_csr_entry : CsrEntry
mideleg_csr_entry = record {
  wpri_mask = 0x00000222;
  write = some (λ h value. record h { idelegation = value });
  read = some (λ h. (h, h.idelegation));
  reset = some (λ h. record h { idelegation = 0 });
}

-- `(value >> k) & 0x1`.
abbrev pub bit_at : ℕ → ℕ → ℕ
bit_at k value = bit_and (value / 2 ^ k) 0x1

unfoldable pub csr_mstatus_write : PrivilegedHart → ℕ → PrivilegedHart
csr_mstatus_write h value = record h {
  status = record {
    uie = bit_at 0 value;
    sie = bit_at 1 value;
    mie = bit_at 3 value;
    upie = bit_at 4 value;
    spie = bit_at 5 value;
    mpie = bit_at 7 value;
    spp = bit_at 8 value;
    mpp = bit_and (value / 2 ^ 11) 0x3;
  };
}

-- `dword |= ((uint32_t)field) << k`, one field behind the other.
unfoldable pub csr_mstatus_read : PrivilegedHart → ℕ
csr_mstatus_read h =
    let s = h.status in
    let low = bit_or (bit_or (bit_or 0 (s.uie * 2 ^ 0)) (s.sie * 2 ^ 1)) (s.mie * 2 ^ 3) in
    let middle = bit_or (bit_or (bit_or low (s.upie * 2 ^ 4)) (s.spie * 2 ^ 5)) (s.mpie * 2 ^ 7) in
    bit_or (bit_or middle (s.spp * 2 ^ 8)) (s.mpp * 2 ^ 11)

abbrev pub mstatus_csr_entry : CsrEntry
mstatus_csr_entry = record {
  wpri_mask = 0x000019aa;
  write = some csr_mstatus_write;
  read = some (λ h. (h, csr_mstatus_read h));
  reset = some (λ h. write_blob 0x300 h 0);
}

abbrev pub mepc_csr_entry : CsrEntry
mepc_csr_entry = blob_entry 0x341 wpri_mask_all

abbrev pub mcause_csr_entry : CsrEntry
mcause_csr_entry = blob_entry 0x342 wpri_mask_all

abbrev pub mtval_csr_entry : CsrEntry
mtval_csr_entry = blob_entry 0x343 wpri_mask_all

abbrev pub pmpaddr_csr_entry : ℕ → CsrEntry
pmpaddr_csr_entry idx = blob_entry (0x3b0 + idx) wpri_mask_all

abbrev pub pmpcfg_csr_entry : ℕ → CsrEntry
pmpcfg_csr_entry idx = blob_entry (0x3a0 + idx) wpri_mask_all

-- `host_tsc` is what the host's rdtsc gives.
abbrev pub time_csr_entry : ℕ → CsrEntry
time_csr_entry host_tsc = record {
  wpri_mask = wpri_mask_all;
  write = some (λ h value. h);
  read = some (λ h. (record h { tsc = host_tsc }, host_tsc % 2 ^ 32));
  reset = none;
}

abbrev pub timeh_csr_entry : CsrEntry
timeh_csr_entry = record {
  wpri_mask = wpri_mask_all;
  write = some (λ h value. h);
  read = some (λ h. (h, h.tsc / 2 ^ 32 % 2 ^ 32));
  reset = none;
}
