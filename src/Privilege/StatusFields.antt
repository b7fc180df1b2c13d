-- ===== src/Privilege/StatusFields.antt =====
-- The fields of `struct status_control_blob` behind the callbacks of mstatus and sstatus, without the
-- masks: what sandbox/csr_machine_level.c and csr_supervisor_level.c write and read.
use hyrule.Prelude.{ℕ, ◌+◌, ◌*◌, ◌/◌, ◌%◌, ◌^◌, ◌<◌, ◌≡◌, arith, bit_and}
use hyrule.Prelude.Bits.{bit_and_mask, bit_or_fields_low}
use hyrule.Privilege.{PrivilegedHart, Status}
use hyrule.Privilege.Csr.{bit_at, csr_mstatus_write, csr_mstatus_read}
use hyrule.Privilege.Supervisor.{csr_sstatus_write, csr_sstatus_read}
use hyrule.Privilege.WpriMask.{supervisor_view}

-- The fields have their widths.
pub record IsStatus (s : Status) : Type 0 where
  pub uie_bit : s.uie < 2
  pub sie_bit : s.sie < 2
  pub mie_bit : s.mie < 2
  pub upie_bit : s.upie < 2
  pub spie_bit : s.spie < 2
  pub mpie_bit : s.mpie < 2
  pub spp_bit : s.spp < 2
  pub mpp_bits : s.mpp < 4

mstatus_sum :
    (h : PrivilegedHart)
    → IsStatus h.status
    → csr_mstatus_read h
      ≡ h.status.uie
        + h.status.sie * 2
        + h.status.mie * 8
        + h.status.upie * 16
        + h.status.spie * 32
        + h.status.mpie * 128
        + h.status.spp * 256
        + h.status.mpp * 2048
unfolding csr_mstatus_read
mstatus_sum h is =
    let s = h.status in
    let (b0, b1, b3, b4) : (s.uie < 2) × (s.sie < 2) × (s.mie < 2) × (s.upie < 2) =
      (is.uie_bit, is.sie_bit, is.mie_bit, is.upie_bit) in
    let (b5, b7, b8, b11) : (s.spie < 2) × (s.mpie < 2) × (s.spp < 2) × (s.mpp < 4) =
      (is.spie_bit, is.mpie_bit, is.spp_bit, is.mpp_bits) in
    let e0 = bit_or_fields_low 0 s.uie 0 (omega arith) in
    let e1 = bit_or_fields_low 1 s.sie (s.uie * 2 ^ 0 + 0) (omega arith) in
    let r1 = s.sie * 2 ^ 1 + (s.uie * 2 ^ 0 + 0) in
    let e3 = bit_or_fields_low 3 s.mie r1 (omega arith) in
    let r3 = s.mie * 2 ^ 3 + r1 in
    let e4 = bit_or_fields_low 4 s.upie r3 (omega arith) in
    let r4 = s.upie * 2 ^ 4 + r3 in
    let e5 = bit_or_fields_low 5 s.spie r4 (omega arith) in
    let r5 = s.spie * 2 ^ 5 + r4 in
    let e7 = bit_or_fields_low 7 s.mpie r5 (omega arith) in
    let r7 = s.mpie * 2 ^ 7 + r5 in
    let e8 = bit_or_fields_low 8 s.spp r7 (omega arith) in
    let r8 = s.spp * 2 ^ 8 + r7 in
    let e11 = bit_or_fields_low 11 s.mpp r8 (omega arith) in
    rw (e0, e1, e3, e4, e5, e7, e8, e11) (omega arith)

sstatus_sum :
    (h : PrivilegedHart)
    → IsStatus h.status
    → csr_sstatus_read h
      ≡ h.status.uie
        + h.status.sie * 2
        + h.status.upie * 16
        + h.status.spie * 32
        + h.status.spp * 256
unfolding csr_sstatus_read
sstatus_sum h is =
    let s = h.status in
    let (b0, b1, b4, b5) : (s.uie < 2) × (s.sie < 2) × (s.upie < 2) × (s.spie < 2) =
      (is.uie_bit, is.sie_bit, is.upie_bit, is.spie_bit) in
    let e0 = bit_or_fields_low 0 s.uie 0 (omega arith) in
    let e1 = bit_or_fields_low 1 s.sie (s.uie * 2 ^ 0 + 0) (omega arith) in
    let r1 = s.sie * 2 ^ 1 + (s.uie * 2 ^ 0 + 0) in
    let e4 = bit_or_fields_low 4 s.upie r1 (omega arith) in
    let r4 = s.upie * 2 ^ 4 + r1 in
    let e5 = bit_or_fields_low 5 s.spie r4 (omega arith) in
    let r5 = s.spie * 2 ^ 5 + r4 in
    let e8 = bit_or_fields_low 8 s.spp r5 (omega arith) in rw (e0, e1, e4, e5, e8) (omega arith)

bit_is : (k value : ℕ) → bit_at k value ≡ value / 2 ^ k % 2
bit_is k value = bit_and_mask 1 (value / 2 ^ k)

two_bits : (value : ℕ) → bit_and (value / 2 ^ 11) 0x3 ≡ value / 2 ^ 11 % 4
two_bits value = bit_and_mask 2 (value / 2 ^ 11)

mstatus_write-IsStatus : (h : PrivilegedHart) (w : ℕ) → IsStatus (csr_mstatus_write h w).status
unfolding csr_mstatus_write
mstatus_write-IsStatus h w = record {
  uie_bit = omega (arith, bit_is 0 w);
  sie_bit = omega (arith, bit_is 1 w);
  mie_bit = omega (arith, bit_is 3 w);
  upie_bit = omega (arith, bit_is 4 w);
  spie_bit = omega (arith, bit_is 5 w);
  mpie_bit = omega (arith, bit_is 7 w);
  spp_bit = omega (arith, bit_is 8 w);
  mpp_bits = omega (arith, two_bits w);
}

sstatus_write-IsStatus :
    (h : PrivilegedHart) (w : ℕ) → IsStatus h.status → IsStatus (csr_sstatus_write h w).status
unfolding csr_sstatus_write
sstatus_write-IsStatus h w is = record {
  uie_bit = omega (arith, bit_is 0 w);
  sie_bit = omega (arith, bit_is 1 w);
  mie_bit = is.mie_bit;
  upie_bit = omega (arith, bit_is 4 w);
  spie_bit = omega (arith, bit_is 5 w);
  mpie_bit = is.mpie_bit;
  spp_bit = omega (arith, bit_is 8 w);
  mpp_bits = is.mpp_bits;
}

-- What the callbacks keep of a word, without the masks.
pub mstatus_raw :
    (h : PrivilegedHart) (w : ℕ)
    → csr_mstatus_read (csr_mstatus_write h w)
      ≡ w % 4 + w / 8 % 2 * 8 + w / 16 % 4 * 16 + w / 128 % 4 * 128 + w / 2048 % 4 * 2048
unfolding csr_mstatus_write
mstatus_raw h w =
    rw
      (
        mstatus_sum (csr_mstatus_write h w) (mstatus_write-IsStatus h w),
        bit_is 0 w,
        bit_is 1 w,
        bit_is 3 w,
        bit_is 4 w,
        bit_is 5 w,
        bit_is 7 w,
        bit_is 8 w,
        two_bits w,
      )
      (omega arith)

pub sstatus_of_mstatus :
    (h : PrivilegedHart) (w : ℕ) → csr_sstatus_read (csr_mstatus_write h w) ≡ supervisor_view w
unfolding csr_mstatus_write
sstatus_of_mstatus h w =
    rw
      (
        sstatus_sum (csr_mstatus_write h w) (mstatus_write-IsStatus h w),
        bit_is 0 w,
        bit_is 1 w,
        bit_is 4 w,
        bit_is 5 w,
        bit_is 8 w,
      )
      (omega arith)

module _ (h : PrivilegedHart) (w : ℕ) (own : IsStatus h.status) where
  pub sstatus_raw : csr_sstatus_read (csr_sstatus_write h w) ≡ supervisor_view w
  unfolding csr_sstatus_write
  sstatus_raw =
      rw
        (
          sstatus_sum (csr_sstatus_write h w) (sstatus_write-IsStatus h w own),
          bit_is 0 w,
          bit_is 1 w,
          bit_is 4 w,
          bit_is 5 w,
          bit_is 8 w,
        )
        (omega arith)

  pub mstatus_of_sstatus :
      csr_mstatus_read (csr_sstatus_write h w)
      ≡ supervisor_view w + h.status.mie * 8 + h.status.mpie * 128 + h.status.mpp * 2048
  unfolding csr_sstatus_write
  mstatus_of_sstatus =
      rw
        (
          mstatus_sum (csr_sstatus_write h w) (sstatus_write-IsStatus h w own),
          bit_is 0 w,
          bit_is 1 w,
          bit_is 4 w,
          bit_is 5 w,
          bit_is 8 w,
        )
        (omega arith)
