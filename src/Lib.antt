-- ===== src/Lib.antt =====
-- A verification library of Hyrule, a user-space emulator of RISC-V Linux programs: its translator
-- of RV32IM code into x86-64 code, the translation cache, atomic instructions, the scheduler, the
-- regions of memory, traps and file descriptors.
--
-- The emulator fetches the guest's instructions, translates each one into a block of host code,
-- stores the blocks in a translation cache and jumps there. A block is inline assembly of the
-- emulator itself, with the immediates and register indices of the instruction stored behind it.
--
-- Files:
--   Prelude, Prelude/*    numbers, lists, integers and the laws of bitwise operations
--   Word, Word/*          words of 32 and 64 bits; `sign_extend32` of sandbox/util.h; what the host's
--                         arithmetic on words means for the integers that they stand for
--   Hart                  sandbox/hart.h: the registers, the pc and the guest's memory, and the
--                         functions of sandbox/mmu.c that translated code calls, as an interface
--   Host, Host/*          the x86-64 instructions that the blocks use, their execution, and rules for
--                         the parts that blocks share
--   Rv, Rv/*              the specification, after the RISC-V manual: the instructions, their effect on
--                         a hart, and their encodings
--   Translate/Block       sandbox/translation.h: `struct decoding` and what a translator commits
--   Translate/Decode      `instruction_decoding_per_type` of sandbox/translation.c
--   Translate/Arithmetic  sandbox/translate_arithmetic.c
--   Translate/Immediate   sandbox/translate_arithmetic_immediate.c
--   Translate/MulDiv      sandbox/translate_multiplication_and_division.c
--   Translate/Branch      sandbox/translate_branch.c
--   Translate/Jump        sandbox/translate_unconditional_jump_intrs.c, and `lui` and `auipc` of
--                         sandbox/translation.c
--   Translate/Memory      sandbox/translate_memory_load.c and translate_memory_store.c
--   Translate/Dispatch    the table `translators` of sandbox/translation.c
--   Translate/Unit        the loop `prefetch_instructions` of sandbox/translation.c, and the blocks of a
--                         translation unit run in a row
--   Cache                 the translation cache of sandbox/hart.c and hart.h: adding, searching, flushing
--   Cache/Search, Cache/Sort, Cache/Window
--                         the loops of sandbox/search.h and sort.h
--   Cache/Item, Cache/Invariant, Cache/Add
--                         the order of the items, what holds of a cache, and what an addition leaves
--   Cache/Commit          `PRECHECK_TRANSLATION_CACHE` and `COMMIT_TRANSLATION` of sandbox/translation.h
--   Cache/Prefetch        `prefetch_instructions` of sandbox/translation.c on the cache
--   Tasks                 sandbox/task_sched.c, vmm_sched.c, and what of wait_queue.c and task.c
--                         changes a task's state
--   Tasks/Comes, Tasks/Select, Tasks/Pick, Tasks/Switch
--                         what the passes over the queues, and a yield, come to
--   Tasks/Conserves, Tasks/Fair, Tasks/Reach, Tasks/Exit
--                         that no task is lost, that each has its turn, and that an exit is final
--   Amo                   the slow paths of sandbox/translate_amo.c and its table of reservations
--   Regions               sandbox/pm_region.h and pm_region.c: the regions of a program's memory
--   Regions/Lookup, Regions/Bubble
--                         the loops of sandbox/search.h and sort.h with a comparison that asserts
--   Regions/Layout, Regions/Free, Regions/Eligible, Regions/Register, Regions/Unregister
--                         the order of the regions, what is found in it, and what the operations leave
--   Regions/Mmap          `mmap`, `munmap` and `brk`, of sandbox/vfs.c, app.c and syscall.c
--   Privilege, Privilege/Trap
--                         sandbox/hart_trap.c, hart_exception.c, hart_interrupt.c and hart_util.h
--   Privilege/Csr, Privilege/Supervisor, Privilege/Callback
--                         the control and status registers: sandbox/csr_*.c
--   Privilege/Tlb         sandbox/mmu_tlb.h and mmu_tlb.c
--   Privilege/Walk        sandbox/mmu_pagewalker.c, and the address of an access in sandbox/mmu.h
--   Privilege/Flush       what satp empties
--   Privilege/WpriMask, Privilege/StatusFields, Privilege/Views
--                         the masks of the status registers, their fields, and the two views of them
--   Files                 the file descriptors of sandbox/vfs.c
--   Translate/Tests       a concrete host and hart, and the theorems at concrete instructions
--
-- How the model stands to the code. A `riscv_*_translator` is the function from a decoding to its
-- block: the host instructions between the labels `*_translation_begin` and `*_translation_end`,
-- the parameters in the order of `BEGIN_PARAM`, and whether `is_to_stop` is set. The macro
-- sequence that loads or stores a guest register is `load_gpr` or `store_gpr`. The translators
-- carry the names that the source gives them (`riscv_stli_translator` is that of `slti`). r15 and
-- r14 hold the addresses of the registers and of the pc, which stand one behind the other in
-- `struct hart`; a word of that structure is reached by its address, and an access elsewhere ends
-- in a fault. A call into sandbox/mmu.c keeps rbx and leaves any value in the other registers, and
-- in the bits of rax above the width of the result; that it does not return (the process exits or
-- an exception is raised) is a fault of the block. The pushes and pops of r12 to r15 round a call,
-- and the loads of the callee's address and of the hart's, belong to the call. Division faults as
-- the processor's does.
--
-- Execution of a block is structural recursion on its instructions: every jump inside a block goes
-- forward, so no fuel is needed. Words are natural numbers with their wrap-around written out.
--
-- The loop `prefetch_instructions` is recursion on the words that it fetches: the list ends before
-- the first instruction that the translation cache holds already.
--
-- Memory behind a pointer (the array of items, the bytes of the cache) is a function from the index,
-- so a write behind the end would show. The loops of sandbox/search.h and sort.h run on fuel, one
-- round for every element: each round makes the window smaller. `prefetch_instructions` on the cache
-- runs on 1024 rounds: each round but the last fills one of the 512 items, and only the first may flush
-- the cache. A result `none` of these is an assertion that fails or fuel that is used up. The bytes
-- that the assembler makes of a block and the guest's words are parameters there.
--
-- Tasks are numbers, and the three intrusive lists are the lists of the tasks on them. `list_append`
-- asserts that the element has no neighbour. An element that is on a list alone passes that assertion
-- and leaves pointers that are no list any more, which the model does not follow: there appending a
-- task that is on one of the lists, alone or not, is `none`. Otherwise `none` is a failed assertion or a
-- state that is not to be reached. The loop over the running queue has one round more than the queue
-- tasks.
--
-- Regions are an array and a count, and a pointer to one is its index; what the host's allocator
-- returns is an argument. The result `none` is there a failed assertion, which ends the emulator, or a
-- registration behind the 128 elements of the array, which the code's bound of 256 allows and which
-- would overwrite the field behind it. The descriptors are an array of 128 in the same way: the
-- descriptor 128, which the code's tests let pass, is `none`.
--
-- The privileged part of a hart is a record of its own: the emulator of programs runs at one level,
-- registers no CSR and keeps the code. What the page walk reads of the guest's memory is a record of
-- two functions there. The jump to the monitor at the end of a trap is left out.
--
-- Not modelled: the pointers of sandbox/list.c; the fence and privileged instructions' blocks, and the
-- blocks of AMO instructions up to their call, which are parameters of the table; the debug and trace
-- variants of the macros; the bytes behind sandbox/mmu.c; the creation of tasks, signals, paths and
-- the other system calls.
pub mod Prelude
pub mod Word
pub mod Hart
pub mod Host
pub mod Rv
pub mod Translate
pub mod Cache
pub mod Tasks
pub mod Amo
pub mod Regions
pub mod Privilege
pub mod Files
