-- ===== src/Files/Tests.antt =====
-- The theorems on file descriptors at a concrete table, and the descriptor behind it.
use hyrule.Prelude.{◌≡◌, refl, arith, none, if◌then◌else◌, ltb}
use hyrule.Prelude.Returns.{Returns}
use hyrule.Cache.Memory.{Array}
use hyrule.Files.{File, cleared_file, allocate_file_descriptor, call_dup, is_refused}
use hyrule.Files.Lowest.{Lowest, allocate_file_descriptor-Lowest, Duplicates, call_dup-Duplicates}

-- The three descriptors that every program begins with.
abbrev standard : Array File
standard i =
    if ltb i 3
    then record cleared_file { fd = i; host_fd = i; valid = 1; host_cpath = 4096 }
    else cleared_file

allocate_file_descriptor-Lowest_example : Lowest standard (allocate_file_descriptor standard)
allocate_file_descriptor-Lowest_example = allocate_file_descriptor-Lowest standard

call_dup-Duplicates_example : Returns (call_dup standard 1 7 8192) (Duplicates standard 1 7 8192 0)
call_dup-Duplicates_example = call_dup-Duplicates standard 7 8192 0 1 (omega arith) (omega arith)

-- A table of 128 with a word behind its end that reads as a valid file.
abbrev behind_the_end : Array File
behind_the_end i = record cleared_file { fd = i; valid = 1 }

index_128_outside : is_refused behind_the_end 128 ≡ none
unfolding is_refused
index_128_outside = refl
