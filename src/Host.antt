-- ===== src/Host.antt =====
-- The x86-64 instructions of which the inline assembly of sandbox/translate_*.c and translation.c
-- is made, and the macros of sandbox/translation.h that end a block.
pub mod Cpu
pub mod Instr
pub mod Run
pub mod Steps
