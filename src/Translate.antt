-- ===== src/Translate.antt =====
-- sandbox/translate_*.c and sandbox/translation.c: the block that each translator emits.
pub mod Block
pub mod Finish
pub mod Arithmetic
pub mod Immediate
pub mod Branch
pub mod Jump
pub mod MulDiv
pub mod Memory
pub mod Decode
pub mod Dispatch
pub mod Unit
pub mod Tests
