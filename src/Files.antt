-- ===== src/Files.antt =====
-- The file descriptors of sandbox/vfs.h and vfs.c. What the host returns, of `dup`, `close` and
-- `strdup`, is an argument; a string is its pointer, 0 the null pointer.
pub mod Lowest
mod Tests
use hyrule.Prelude.{ℕ, zero, suc, ◌+◌, ◌-◌, ◌^◌, Bool, true, false, Option, none, some}
use hyrule.Prelude.{ltb, ◌==◌, if◌then◌else◌}
use hyrule.Cache.Memory.{Array, store}

-- `struct file`, with `clone_blob` in its last three fields.
pub record File : Type 0 where
  pub fd : ℕ
  pub host_fd : ℕ
  pub valid : ℕ
  pub host_cpath : ℕ
  pub file_type : ℕ
  pub mode : ℕ
  pub flags : ℕ

abbrev pub max_files_nr : ℕ
max_files_nr = 128

-- `-EBADF` and `-ENOMEM` of `uint32_t`.
abbrev pub ebadf : ℕ
ebadf = 2 ^ 32 - 9

abbrev pub no_descriptor : ℕ
no_descriptor = 2 ^ 32 - 12

-- `memset` with zero.
abbrev pub cleared_file : File
cleared_file = record {
  fd = 0;
  host_fd = 0;
  valid = 0;
  host_cpath = 0;
  file_type = 0;
  mode = 0;
  flags = 0;
}

-- The first slot from `idx` on that is not valid, by the rounds left.
unfoldable pub free_slot : ℕ → ℕ → Array File → Option ℕ
free_slot zero idx files = none
free_slot (suc n) idx files = elim ((files idx).valid == 0) [
  | true ↦ some idx
  | false ↦ free_slot n (idx + 1) files
]

abbrev pub allocated : Array File → Option ℕ → Option (Array File × ℕ)
allocated files none = none
allocated files (some idx) =
    some (store files idx (record cleared_file { fd = idx; valid = 1 }), idx)

-- The table and the index of the descriptor; `none` is the null pointer.
unfoldable pub allocate_file_descriptor : Array File → Option (Array File × ℕ)
allocate_file_descriptor files = allocated files (free_slot max_files_nr 0 files)

-- `none` is the assertion that the file is valid.
unfoldable pub deallocate_file_descriptor : Array File → ℕ → Option (Array File)
deallocate_file_descriptor files target_file =
    if (files target_file).valid == 0 then none else some (store files target_file cleared_file)

-- Is the descriptor refused? The test lets the index 128 pass, and the word behind the array is read:
-- `none`, which is outside the model.
unfoldable pub is_refused : Array File → ℕ → Option Bool
is_refused files fd =
    if ltb max_files_nr fd
    then some true
    else (if fd == max_files_nr then none else some ((files fd).valid == 0))

-- The error where it is, and the rest of the call where it is not.
abbrev pub unless_refused :
    Array File → Option Bool → Option (Array File × ℕ) → Option (Array File × ℕ)
unless_refused files none rest = none
unless_refused files (some true) rest = some (files, ebadf)
unless_refused files (some false) rest = rest

abbrev pub closed : ℕ → Option (Array File) → Option (Array File × ℕ)
closed rc none = none
closed rc (some files) = some (files, rc)

-- `rc` is what `close` gives, with its error number.
unfoldable pub do_close : Array File → ℕ → ℕ → Option (Array File × ℕ)
do_close files fd rc =
    unless_refused files (is_refused files fd) (closed rc (deallocate_file_descriptor files fd))

-- The fields that a duplicate takes over: `copy` is the duplicate of the path.
unfoldable pub take_over : File → File → ℕ → ℕ → File
take_over source target host_fd copy =
    if source.host_cpath == 0 then record target { host_fd = host_fd } else record target {
      host_fd = host_fd;
      host_cpath = copy;
      file_type = source.file_type;
      mode = source.mode;
      flags = source.flags;
    }

-- The source is read after the slot is taken.
abbrev pub duplicated : Array File → ℕ → ℕ → ℕ → Option (Array File × ℕ) → Array File × ℕ
duplicated files fd host_fd copy none = (files, no_descriptor)
duplicated files fd host_fd copy (some (next, target)) =
    (store next target (take_over (next fd) (next target) host_fd copy), target)

unfoldable pub call_dup : Array File → ℕ → ℕ → ℕ → Option (Array File × ℕ)
call_dup files fd host_fd copy =
    unless_refused files (is_refused files fd)
      (some (duplicated files fd host_fd copy (allocate_file_descriptor files)))
