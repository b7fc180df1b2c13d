-- ===== src/Privilege/Tests.antt =====
-- The theorems on traps and control and status registers at a concrete hart.
use hyrule.Prelude.{◌≡◌, refl, inl, arith, true, some, none}
use hyrule.Prelude.{◌==◌, ◌*◌, if◌then◌else◌}
use hyrule.Prelude.Returns.{Returns}
use hyrule.Cache.{TranslationCache}
use hyrule.Privilege.{PrivilegedHart}
use hyrule.Cache.Memory.{Array}
use hyrule.Privilege.Tlb.{TlbEntry, va_to_tlb_entry}
use hyrule.Privilege.Walk.{PhysicalMemory, access_address}
use hyrule.Privilege.Walk.Sv32.{sv32_address, access_address-sv32_address}
use hyrule.Privilege.Trap.{
  raise_trap_raw, raise_exception_internal, deliver_interrupt, is_interrupt_deliverable,
  is_window_open, interrupt_target_privilege_level, target_of_vector, mret_callback,
}
use hyrule.Privilege.Trap.Raises.{Excepts, raise_exception_internal-Excepts}
use hyrule.Privilege.Trap.Interrupts.{Interrupts, deliver_interrupt-Interrupts}
use hyrule.Privilege.Trap.Round.{Resumes, mret_callback-Resumes}
use hyrule.Privilege.Csr.{mstatus_csr_entry}
use hyrule.Privilege.Supervisor.{csr_satp_write, sstatus_csr_entry}
use hyrule.Privilege.Flush.{Forgets, csr_satp_write-Forgets}
use hyrule.Privilege.Views.{read_of, csr_mstatus-Views, csr_sstatus-Views}
use hyrule.Privilege.StatusFields.{IsStatus}
use hyrule.Privilege.Callback.{csrrw_case}
use hyrule.Translate.Block.{Decoding, encoding_type_i}

abbrev empty_cache : TranslationCache
empty_cache = record {
  nr_translated_instructions = 0;
  pc_mappings = λ i. record { guest_pc = 0; tc_offset = 0 };
  translation_cache = λ i. 0;
  translation_cache_ptr = 0;
}

abbrev valid_entry : TlbEntry
valid_entry = record { va_tag = 4096; pa_tag = 8192; page_mask = 4294963200; entry_valid = 1 }

-- At the supervisor's level, with the timer interrupt of number 5 pending, enabled and delegated, and
-- 9 in every CSR, a vectored mode.
abbrev supervisor : PrivilegedHart
supervisor = record {
  registers = λ i. i * 10;
  pc = 4096;
  hart_id = 0;
  cache = empty_cache;
  csrs = λ i. 9;
  idelegation = 32;
  ienable = 32;
  ipending = 32;
  status = record { uie = 0; sie = 1; mie = 1; upie = 0; spie = 0; mpie = 0; spp = 0; mpp = 0 };
  privilege_level = 1;
  itlb = λ i. valid_entry;
  dtlb = λ i. valid_entry;
  itlb_cap = 64;
  dtlb_cap = 64;
  tsc = 0;
}

raise_exception_internal-Excepts_example :
    Returns (raise_exception_internal supervisor 3 4096) (Excepts supervisor 3 4096)
raise_exception_internal-Excepts_example =
    raise_exception_internal-Excepts supervisor 3 4096 (λ i. omega arith) (inl (omega arith))
      (omega arith)

timer_deliverable : is_interrupt_deliverable supervisor 5 ≡ some true
unfolding is_interrupt_deliverable interrupt_target_privilege_level is_window_open target_of_vector
timer_deliverable = refl

deliver_interrupt-Interrupts_example :
    Returns (deliver_interrupt supervisor 5) (Interrupts supervisor 5)
deliver_interrupt-Interrupts_example =
    deliver_interrupt-Interrupts supervisor 5 (λ i. omega arith) (omega arith) timer_deliverable

mret_callback-Resumes_example :
    Returns
      (raise_trap_raw supervisor 3 3 4096)
      (λ trapped. Returns (mret_callback trapped) (Resumes supervisor))
mret_callback-Resumes_example = mret_callback-Resumes supervisor 3 4096 (inl (omega arith))

csr_satp_write-Forgets_example :
    ((csr_satp_write supervisor 5).csrs 0x180 ≡ 5) × Forgets (csr_satp_write supervisor 5)
csr_satp_write-Forgets_example = csr_satp_write-Forgets supervisor 5 6 6 refl refl

abbrev all_ones : PrivilegedHart
all_ones = record supervisor { registers = λ i. 4294967295 }

-- `csrrw` with the CSR written from register 2.
abbrev csrrw_of_2 : Decoding
csrrw_of_2 = record {
  opcode = 0x73;
  instr_encoding_type = encoding_type_i;
  funct3 = 1;
  rd_index = 1;
  rs1_index = 2;
  rs2_index = 0;
  funct7 = 0;
  imm = 0x300;
}

csr_mstatus-Views_example :
    (read_of mstatus_csr_entry (csrrw_case mstatus_csr_entry all_ones csrrw_of_2) ≡ 0x19aa)
    × (read_of sstatus_csr_entry (csrrw_case mstatus_csr_entry all_ones csrrw_of_2) ≡ 0x122)
csr_mstatus-Views_example = csr_mstatus-Views all_ones csrrw_of_2 refl

supervisor-IsStatus : IsStatus supervisor.status
supervisor-IsStatus = record {
  uie_bit = omega arith;
  sie_bit = omega arith;
  mie_bit = omega arith;
  upie_bit = omega arith;
  spie_bit = omega arith;
  mpie_bit = omega arith;
  spp_bit = omega arith;
  mpp_bits = omega arith;
}

csr_sstatus-Views_example :
    (read_of sstatus_csr_entry (csrrw_case sstatus_csr_entry all_ones csrrw_of_2) ≡ 0x133)
    × (read_of mstatus_csr_entry (csrrw_case sstatus_csr_entry all_ones csrrw_of_2) ≡ 0x12a)
csr_sstatus-Views_example = csr_sstatus-Views all_ones csrrw_of_2 refl supervisor-IsStatus

-- A page table at 4096 whose first entry leads to one at 8192, of which entry 5 is the page at 20480.
abbrev tables : PhysicalMemory
tables = record {
  pte_at = λ a. if a == 4096 then some 2049 else (if a == 8212 then some 5135 else some 0);
  is_backed = λ a. true;
}

abbrev no_entries : Array TlbEntry
no_entries i = record { va_tag = 0; pa_tag = 0; page_mask = 0; entry_valid = 0 }

access_address-sv32_address_example :
    access_address tables 2147483649 no_entries 64 20483 ≡ sv32_address tables 20483 2147483649
unfolding va_to_tlb_entry
access_address-sv32_address_example =
    access_address-sv32_address tables 20483 no_entries 64 (omega arith) refl 2147483649
      (omega arith) (omega arith)

walk_finds_the_page : sv32_address tables 20483 2147483649 ≡ some (some 20483)
walk_finds_the_page = refl

-- An entry for the page 0x40000 is used for the page 0 as well, which the table does not map.
abbrev entry_of_64 : Array TlbEntry
entry_of_64 i = record {
  va_tag = 262144;
  pa_tag = 20480;
  page_mask = 4294963200;
  entry_valid = if i == 0 then 1 else 0;
}

tag_not_compared : access_address tables 2147483649 entry_of_64 64 3 ≡ some (some 20483)
unfolding access_address va_to_tlb_entry
tag_not_compared = refl

page_0_unmapped : sv32_address tables 3 2147483649 ≡ some none
page_0_unmapped = refl
