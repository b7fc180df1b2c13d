-- ===== src/Privilege/Callback.antt =====
-- `riscv_generic_csr_callback` of sandbox/csr_representation.c. The magic word of the hart, which
-- nothing changes, is not in the model. `none` is an assertion that fails, or a panic.
use hyrule.Prelude.{ℕ, ◌-◌, ◌^◌, bit_and, bit_or, ◌||◌, Option, none, some}
use hyrule.Prelude.{◌==◌, if◌then◌else◌}
use hyrule.Cache.Memory.{store}
use hyrule.Privilege.{PrivilegedHart}
use hyrule.Privilege.Csr.{CsrEntry}
use hyrule.Translate.Block.{Decoding, encoding_type_i}
use hyrule.Translate.Decode.{instruction_decoding_per_type}

-- `csr->read`, 0 where that is a null pointer, under the mask.
unfoldable pub value_to_read : CsrEntry → PrivilegedHart → PrivilegedHart × ℕ
value_to_read csr h = elim csr.read [
  | none ↦ (h, bit_and 0 csr.wpri_mask)
  | some read ↦ (let (next, value) = read h in (next, bit_and value csr.wpri_mask))
]

unfoldable pub csr_write : CsrEntry → PrivilegedHart → ℕ → PrivilegedHart
csr_write csr h value = elim csr.write [ none ↦ h | some write ↦ write h value ]

abbrev pub with_register : ℕ → PrivilegedHart → ℕ → PrivilegedHart
with_register rd_index h value = record h { registers = store h.registers rd_index value }

unfoldable pub csrrw_case : CsrEntry → PrivilegedHart → Decoding → PrivilegedHart
csrrw_case csr h dec =
    let rs1_reg = h.registers dec.rs1_index in
    let value_to_write =
      bit_and (if dec.funct3 == 1 then rs1_reg else dec.rs1_index) csr.wpri_mask in
    let (next, value) = value_to_read csr h in
    if dec.rd_index == 0
    then csr_write csr h value_to_write
    else csr_write csr (with_register dec.rd_index next value) value_to_write

unfoldable pub csrrs_case : CsrEntry → PrivilegedHart → Decoding → PrivilegedHart
csrrs_case csr h dec =
    let value_to_set =
      if dec.funct3 == 2 then h.registers dec.rs1_index else bit_and dec.rs1_index 0x1f in
    let (next, value) = value_to_read csr h in
    let done = with_register dec.rd_index next value in
    if dec.rs1_index == 0
    then done
    else csr_write csr done (bit_and (bit_or value value_to_set) csr.wpri_mask)

-- `~value` of 32 bits is 2^32 - 1 - value.
unfoldable pub csrrc_case : CsrEntry → PrivilegedHart → Decoding → PrivilegedHart
csrrc_case csr h dec =
    let value_to_clear =
      if dec.funct3 == 3 then h.registers dec.rs1_index else bit_and dec.rs1_index 0x1f in
    let (next, value) = value_to_read csr h in
    let done = with_register dec.rd_index next value in
    if dec.rs1_index == 0
    then done
    else csr_write csr done (bit_and (bit_and value (2 ^ 32 - 1 - value_to_clear)) csr.wpri_mask)

unfoldable pub csr_case : CsrEntry → PrivilegedHart → Decoding → Option PrivilegedHart
csr_case csr h dec =
    if dec.funct3 == 1 || dec.funct3 == 5
    then some (csrrw_case csr h dec)
    else (if dec.funct3 == 2 || dec.funct3 == 6
        then some (csrrs_case csr h dec)
        else (if dec.funct3 == 3 || dec.funct3 == 7 then some (csrrc_case csr h dec) else none))

-- `csrs_base` has no valid entry where it is `none`.
unfoldable pub riscv_generic_csr_callback :
    (ℕ → Option CsrEntry) → PrivilegedHart → ℕ → Option PrivilegedHart
riscv_generic_csr_callback csrs_base h instruction =
    let dec = instruction_decoding_per_type encoding_type_i instruction in
    if bit_and instruction 0x7f == 0x73
    then (elim (csrs_base (bit_and dec.imm 0xfff)) [ none ↦ none | some csr ↦ csr_case csr h dec ])
    else none
