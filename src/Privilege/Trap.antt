-- ===== src/Privilege/Trap.antt =====
-- sandbox/hart_trap.c, hart_exception.c, hart_interrupt.c and hart_util.h, and the calls of `mret` and
-- `sret` of sandbox/translate_privileged_instr.c. The jump to the monitor at the end of a trap is not
-- in the model: the state is what the monitor goes on with. `none` is an assertion that fails.
pub mod Raises
pub mod Interrupts
pub mod Round
use hyrule.Prelude.{ℕ, ◌+◌, ◌*◌, ◌%◌, ◌^◌, ◌≡◌, bit_and, bit_or, Bool, true, false, not, ◌&&◌, ◌||◌}
use hyrule.Prelude.{Option, none, some, ltb, leb, ◌==◌, if◌then◌else◌}
use hyrule.Cache.{flush_translation_cache}
use hyrule.Cache.Memory.{store}
use hyrule.Privilege.{
  PrivilegedHart, Status, privilege_level_user, privilege_level_supervisor, privilege_level_machine,
}

-- The pc at the end of `setup_mmode_trap` and of `setup_smode_trap`.
unfoldable pub trap_vector : ℕ → ℕ → ℕ
trap_vector tvec cause =
    if bit_and tvec 1 == 0 || bit_and cause 2147483648 == 0
    then bit_and tvec 4294967292
    else (bit_and tvec 4294967292 + bit_and cause 2147483647 * 4) % 2 ^ 32

-- 0x342, 0x343, 0x341 and 0x305 are mcause, mtval, mepc and mtvec.
unfoldable pub setup_mmode_trap : PrivilegedHart → ℕ → ℕ → PrivilegedHart
setup_mmode_trap h cause tval =
    let csrs = store (store (store h.csrs 0x342 cause) 0x343 tval) 0x341 h.pc in
    record h {
      csrs = csrs;
      status = record (h.status) { mpp = h.privilege_level; mpie = h.status.mie; mie = 0 };
      privilege_level = privilege_level_machine;
      pc = trap_vector (csrs 0x305) cause;
    }

-- 0x142, 0x143, 0x141 and 0x105 are scause, stval, sepc and stvec; `spp` has one bit.
unfoldable pub setup_smode_trap : PrivilegedHart → ℕ → ℕ → PrivilegedHart
setup_smode_trap h cause tval =
    let csrs = store (store (store h.csrs 0x142 cause) 0x143 tval) 0x141 h.pc in
    record h {
      csrs = csrs;
      status = record (h.status) { spp = h.privilege_level % 2; spie = h.status.sie; sie = 0 };
      privilege_level = privilege_level_supervisor;
      pc = trap_vector (csrs 0x105) cause;
    }

abbrev pub flushed : PrivilegedHart → PrivilegedHart
flushed h = record h { cache = flush_translation_cache h.cache }

unfoldable pub raise_trap_raw : PrivilegedHart → ℕ → ℕ → ℕ → Option PrivilegedHart
raise_trap_raw h target_privilege_level cause tval =
    if target_privilege_level == privilege_level_machine
    then some (flushed (setup_mmode_trap h cause tval))
    else (if target_privilege_level == privilege_level_supervisor
        then some (flushed (setup_smode_trap h cause tval))
        else none)

-- 0x302 is medeleg.
unfoldable pub exception_target_privilege_level : PrivilegedHart → ℕ → ℕ
exception_target_privilege_level h exception_number =
    if not (h.privilege_level == privilege_level_machine)
      && not (bit_and (h.csrs 0x302) (2 ^ exception_number) == 0)
    then privilege_level_supervisor
    else privilege_level_machine

unfoldable pub raise_exception_internal : PrivilegedHart → ℕ → ℕ → Option PrivilegedHart
raise_exception_internal h exception_cause trap_value =
    if ltb exception_cause 16
    then raise_trap_raw h (exception_target_privilege_level h exception_cause) exception_cause
        trap_value
    else none

-- Behind its assertion that the vector is below 12.
unfoldable pub target_of_vector : PrivilegedHart → ℕ → ℕ
target_of_vector h vector =
    if bit_and h.idelegation (2 ^ vector) == 0
    then privilege_level_machine
    else privilege_level_supervisor

unfoldable pub interrupt_target_privilege_level : PrivilegedHart → ℕ → Option ℕ
interrupt_target_privilege_level h vector =
    if ltb vector 12 then some (target_of_vector h vector) else none

unfoldable pub is_window_open : PrivilegedHart → ℕ → ℕ → Bool
is_window_open h vector target_pl =
    leb h.privilege_level target_pl
    && not (bit_and h.ipending (2 ^ vector) == 0)
    && not (bit_and h.ienable (2 ^ vector) == 0)
    && (target_pl == privilege_level_machine && not (h.status.mie == 0)
        || target_pl == privilege_level_supervisor && not (h.status.sie == 0))

unfoldable pub is_interrupt_deliverable : PrivilegedHart → ℕ → Option Bool
is_interrupt_deliverable h vector = elim (interrupt_target_privilege_level h vector) [
  | none ↦ none
  | some target_pl ↦ some (is_window_open h vector target_pl)
]

unfoldable pub deliver_interrupt : PrivilegedHart → ℕ → Option PrivilegedHart
deliver_interrupt h vector = elim (interrupt_target_privilege_level h vector) [
  | none ↦ none
  | some target_pl ↦ raise_trap_raw h target_pl (bit_or 2147483648 vector) 0
]

unfoldable pub adjust_mstatus_upon_mret : PrivilegedHart → Option PrivilegedHart
adjust_mstatus_upon_mret h =
    let mpp = h.status.mpp in
    if mpp == privilege_level_user
      || mpp == privilege_level_supervisor
      || mpp == privilege_level_machine
    then some (record h {
      privilege_level = mpp;
      status = record (h.status) { mpp = privilege_level_user; mie = h.status.mpie; mpie = 1 };
    })
    else none

unfoldable pub adjust_mstatus_upon_sret : PrivilegedHart → Option PrivilegedHart
adjust_mstatus_upon_sret h =
    let spp = h.status.spp in
    if spp == privilege_level_user || spp == privilege_level_supervisor
    then some (record h {
      privilege_level = spp;
      status = record (h.status) { spp = privilege_level_user; sie = h.status.spie; spie = 1 };
    })
    else none

unfoldable pub adjust_pc_upon_mret : PrivilegedHart → PrivilegedHart
adjust_pc_upon_mret h = record h { pc = h.csrs 0x341 }

unfoldable pub adjust_pc_upon_sret : PrivilegedHart → PrivilegedHart
adjust_pc_upon_sret h = record h { pc = h.csrs 0x141 }

-- An exception does not come back to the call: 2 is an illegal instruction.
unfoldable pub mret_callback : PrivilegedHart → Option PrivilegedHart
mret_callback h =
    if h.privilege_level == privilege_level_machine
    then (elim (adjust_mstatus_upon_mret h) [
      | none ↦ none
      | some next ↦ some (flushed (adjust_pc_upon_mret next))
    ])
    else raise_exception_internal h 2 0

unfoldable pub sret_callback : PrivilegedHart → Option PrivilegedHart
sret_callback h =
    if h.privilege_level == privilege_level_supervisor
    then (elim (adjust_mstatus_upon_sret h) [
      | none ↦ none
      | some next ↦ some (flushed (adjust_pc_upon_sret next))
    ])
    else raise_exception_internal h 2 0
