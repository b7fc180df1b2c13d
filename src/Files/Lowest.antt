-- ===== src/Files/Lowest.antt =====
-- `allocate_file_descriptor` of sandbox/vfs.c takes the lowest free descriptor, and `do_close` gives a
-- duplicate back.
use hyrule.Prelude.{
  ℕ, zero, suc, ◌+◌, ◌≤◌, ◌<◌, ◌≡◌, refl, ap, ◌≢◌, ◌⊎◌, inl, inr, arith, Option, none, some,
}
use hyrule.Prelude.{true, false, Bool-cases, ltb, ◌==◌}
use hyrule.Prelude.Returns.{Returns}
use hyrule.Cache.Memory.{Array, store}
use hyrule.Files.{
  File, max_files_nr, cleared_file, free_slot, allocated, allocate_file_descriptor,
  deallocate_file_descriptor, is_refused, do_close, take_over, duplicated, call_dup, no_descriptor,
}

-- The slots from `low` up to `high` are taken.
abbrev pub AreTaken : Array File → ℕ → ℕ → Type 0
AreTaken files low high = (i : ℕ) → low ≤ i → i < high → 0 < (files i).valid

abbrev IsFirst : Array File → ℕ → ℕ → Option ℕ → Type 0
IsFirst files low high none = AreTaken files low high
IsFirst files low high (some i) =
    (low ≤ i) × (i < high) × ((files i).valid ≡ 0) × AreTaken files low i

free_slot-IsFirst :
    (n idx : ℕ) (files : Array File) → IsFirst files idx (idx + n) (free_slot n idx files)
unfolding free_slot
free_slot-IsFirst zero idx files = λ i le lt. absurd (omega arith)
free_slot-IsFirst (suc n) idx files = elim (Bool-cases ((files idx).valid == 0)) [
  | inl free ↦
      rw (free_slot, free) (omega arith, omega arith, ground arith, λ i le lt. absurd (omega arith))
  | inr taken ↦
      rw (free_slot, taken)
        (further (free_slot n (idx + 1) files) (free_slot-IsFirst n (idx + 1) files) (ground arith))
]
  where
    here_too :
        (high : ℕ) → AreTaken files (idx + 1) high → 0 < (files idx).valid → AreTaken files idx high
    here_too high rest here i le lt = elim (Bool-cases (i == idx)) [
      | inl same ↦ let e : i ≡ idx = ground arith in rw e here
      | inr other ↦ rest i (ground arith) lt
    ]

    further :
        (o : Option ℕ)
        → IsFirst files (idx + 1) (idx + 1 + n) o
        → 0 < (files idx).valid
        → IsFirst files idx (idx + suc n) o
    further none rest here = λ i le lt. here_too (idx + 1 + n) rest here i le (omega arith)
    further (some i) (low, high, free, rest) here =
        (omega arith, omega arith, free, here_too i rest here)

-- The lowest slot that is free is taken, cleared and given its index, and the others are as they
-- were; or all are taken.
abbrev pub Lowest : Array File → Option (Array File × ℕ) → Type 0
Lowest files none = AreTaken files 0 max_files_nr
Lowest files (some (next, i)) =
    (i < max_files_nr)
    × ((files i).valid ≡ 0)
    × AreTaken files 0 i
    × (next i ≡ record cleared_file { fd = i; valid = 1 })
    × ((j : ℕ) → j ≢ i → next j ≡ files j)

allocated-Lowest :
    (files : Array File) (o : Option ℕ)
    → IsFirst files 0 max_files_nr o
    → Lowest files (allocated files o)
unfolding store
allocated-Lowest files none all = all
allocated-Lowest files (some i) (low, high, free, before) =
    let same : (i == i) ≡ true = ground arith in
    (
      high,
      free,
      before,
      rw (store, same) refl,
      λ j differ. let other : (j == i) ≡ false = ground (arith, differ) in rw (store, other) refl,
    )

-- For every table: the allocation gives the lowest descriptor that is free, cleared but for its own
-- number and the mark that it is valid, with the others as they were, or the null pointer where all
-- 128 are taken.
pub allocate_file_descriptor-Lowest :
    (files : Array File) → Lowest files (allocate_file_descriptor files)
unfolding allocate_file_descriptor
allocate_file_descriptor-Lowest files =
    allocated-Lowest files (free_slot max_files_nr 0 files) (free_slot-IsFirst max_files_nr 0 files)

-- The file of a duplicate: under its own number, with the host's duplicate, and with the copy of the
-- path, the type, the mode and the flags where the source has a path, else with these cleared.
abbrev IsDuplicate : File → ℕ → ℕ → ℕ → File → Type 0
IsDuplicate source new_fd host_fd copy f =
    ((source.host_cpath ≡ 0)
      × (f ≡ record {
        fd = new_fd;
        host_fd = host_fd;
        valid = 1;
        host_cpath = 0;
        file_type = 0;
        mode = 0;
        flags = 0;
      }))
    ⊎ ((0 < source.host_cpath)
        × (f ≡ record {
          fd = new_fd;
          host_fd = host_fd;
          valid = 1;
          host_cpath = copy;
          file_type = source.file_type;
          mode = source.mode;
          flags = source.flags;
        }))

take_over-IsDuplicate :
    (source : File) (new_fd host_fd copy : ℕ)
    → IsDuplicate source new_fd host_fd copy
        (take_over source (record cleared_file { fd = new_fd; valid = 1 }) host_fd copy)
unfolding take_over
take_over-IsDuplicate source new_fd host_fd copy = elim (Bool-cases (source.host_cpath == 0)) [
  | inl no_path ↦ rw no_path (inl (ground arith, refl))
  | inr path ↦ rw path (inr (ground arith, refl))
]

IsDuplicate-valid :
    (source : File) (new_fd host_fd copy : ℕ) (f : File)
    → IsDuplicate source new_fd host_fd copy f
    → f.valid ≡ 1
IsDuplicate-valid source new_fd host_fd copy f (inl (no_path, is)) = ap (λ (g : File). g.valid) is
IsDuplicate-valid source new_fd host_fd copy f (inr (path, is)) = ap (λ (g : File). g.valid) is

accepted :
    (files : Array File) (fd : ℕ)
    → fd < max_files_nr
    → 0 < (files fd).valid
    → is_refused files fd ≡ some false
unfolding is_refused
accepted files fd inside in_use =
    let passes : ltb max_files_nr fd ≡ false = ground arith in
    let not_last : (fd == max_files_nr) ≡ false = ground arith in
    let valid : ((files fd).valid == 0) ≡ false = ground arith in rw (passes, not_last, valid) refl

-- After the close the slot is free and the others are as they were.
abbrev pub GivesBack : Array File → ℕ → ℕ → Array File × ℕ → Type 0
GivesBack files new_fd rc (next, ret) =
    (ret ≡ rc) × ((next new_fd).valid ≡ 0) × ((j : ℕ) → j ≢ new_fd → next j ≡ files j)

-- A new descriptor, a duplicate of the source, or none where all are taken.
abbrev pub Duplicates : Array File → ℕ → ℕ → ℕ → ℕ → Array File × ℕ → Type 0
Duplicates files fd host_fd copy rc (next, new_fd) =
    ((new_fd ≡ no_descriptor) × (next ≡ files) × AreTaken files 0 max_files_nr)
    ⊎ ((new_fd < max_files_nr)
        × ((files new_fd).valid ≡ 0)
        × AreTaken files 0 new_fd
        × IsDuplicate (files fd) new_fd host_fd copy (next new_fd)
        × ((j : ℕ) → j ≢ new_fd → next j ≡ files j)
        × Returns (do_close next new_fd rc) (GivesBack files new_fd rc))

module _ (files : Array File) (host_fd copy rc : ℕ) where
  close-GivesBack :
      (next : Array File) (new_fd : ℕ)
      → new_fd < max_files_nr
      → (next new_fd).valid ≡ 1
      → ((j : ℕ) → j ≢ new_fd → next j ≡ files j)
      → Returns (do_close next new_fd rc) (GivesBack files new_fd rc)
  unfolding do_close deallocate_file_descriptor store
  close-GivesBack next new_fd low valid others =
      let same : (new_fd == new_fd) ≡ true = ground arith in
      rw (accepted next new_fd low (omega (arith, valid)), valid)
        (
          refl,
          rw (store, same) refl,
          λ j differ.
              let other : (j == new_fd) ≡ false = ground (arith, differ) in
              rw (store, other) (others j differ),
        )

  duplicated-Duplicates :
      (fd : ℕ) (o : Option (Array File × ℕ))
      → 0 < (files fd).valid
      → Lowest files o
      → Duplicates files fd host_fd copy rc (duplicated files fd host_fd copy o)
  unfolding store
  duplicated-Duplicates fd none in_use all = inl (refl, refl, all)
  duplicated-Duplicates fd (some (next, i)) in_use (low, free, before, is, others) =
      let same : (i == i) ≡ true = ground arith in
      let source : next fd ≡ files fd =
        others fd (λ e. absurd (omega (arith, ap (λ (j : ℕ). (files j).valid) e))) in
      let made = store next i (take_over (next fd) (next i) host_fd copy) in
      let now : made i ≡ take_over (files fd) (next i) host_fd copy =
        rw (store, same, source) refl in
      let copied : IsDuplicate (files fd) i host_fd copy (made i) =
        rw (now, is) (take_over-IsDuplicate (files fd) i host_fd copy) in
      let rest : (j : ℕ) → j ≢ i → made j ≡ files j = λ j differ.
        let other : (j == i) ≡ false = ground (arith, differ) in
        rw (store, other) (others j differ) in
      inr (
        low,
        free,
        before,
        copied,
        rest,
        close-GivesBack made i low (IsDuplicate-valid (files fd) i host_fd copy (made i) copied)
            rest,
      )

  -- For a descriptor below 128 that is valid, whatever the host's calls give: the call returns, and
  -- either it takes the lowest free descriptor, which then is valid, has its own number and the
  -- host's duplicate, and has the copy of the path and the source's type, mode and flags where the
  -- source has a path, and these cleared where it has none; the others are as they were, and closing
  -- it returns, without a failed assertion, what the host's close gives, with that descriptor free
  -- and the others as they were; or all 128 are taken, nothing is changed and the error is returned.
  pub call_dup-Duplicates :
      (fd : ℕ)
      → fd < max_files_nr
      → 0 < (files fd).valid
      → Returns (call_dup files fd host_fd copy) (Duplicates files fd host_fd copy rc)
  unfolding call_dup
  call_dup-Duplicates fd inside in_use = rw (accepted files fd inside in_use) (
      duplicated-Duplicates fd (allocate_file_descriptor files) in_use
        (allocate_file_descriptor-Lowest files))
