-- ===== src/Privilege.antt =====
-- sandbox/hart.h, hart_def.h and csr.h: the fields of `struct hart` behind the privileged
-- instructions. The emulator of programs keeps this code and registers no CSR.
pub mod Tlb
pub mod Trap
pub mod Csr
pub mod Supervisor
pub mod Callback
mod Tests
pub mod Flush
pub mod WpriMask
pub mod StatusFields
pub mod Views
pub mod Walk
use hyrule.Prelude.{ℕ, ◌+◌, ◌^◌, ◌<◌, ◌≤◌, ◌≡◌, ◌⊎◌, Option}
use hyrule.Cache.{TranslationCache}
use hyrule.Cache.Memory.{Array}
use hyrule.Privilege.Tlb.{TlbEntry}

-- `struct status_control_blob`.
pub record Status : Type 0 where
  pub uie : ℕ
  pub sie : ℕ
  pub mie : ℕ
  pub upie : ℕ
  pub spie : ℕ
  pub mpie : ℕ
  pub spp : ℕ
  pub mpp : ℕ

-- `csrs` is the field `csr_blob` of each entry behind `csrs_base`; the three interrupt blobs are
-- their `dword`.
pub record PrivilegedHart : Type 0 where
  pub registers : Array ℕ
  pub pc : ℕ
  pub hart_id : ℕ
  pub cache : TranslationCache
  pub csrs : Array ℕ
  pub idelegation : ℕ
  pub ienable : ℕ
  pub ipending : ℕ
  pub status : Status
  pub privilege_level : ℕ
  pub itlb : Array TlbEntry
  pub dtlb : Array TlbEntry
  pub itlb_cap : ℕ
  pub dtlb_cap : ℕ
  pub tsc : ℕ

abbrev pub privilege_level_user : ℕ
privilege_level_user = 0

abbrev pub privilege_level_supervisor : ℕ
privilege_level_supervisor = 1

abbrev pub privilege_level_machine : ℕ
privilege_level_machine = 3

-- One of the levels but the reserved one.
abbrev pub IsLevel : ℕ → Type 0
IsLevel level = (level ≤ 1) ⊎ (level ≡ 3)
