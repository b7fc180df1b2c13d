-- ===== src/Translate/Tests.antt =====
-- A host with one cell of memory and a hart, for the translator at concrete instructions.
pub mod Dispatch
pub mod Decode
pub mod Unit
use hyrule.Prelude.{ℕ, zero, suc, ◌-◌, ◌%◌, ◌^◌, ◌<◌, ◌≡◌, refl, arith, true, false, ◌∷◌}
use hyrule.Prelude.{none, some, get_or, replicate}
use hyrule.Hart.{Hart, Mmu, IsHart, IsMmu}
use hyrule.Host.Cpu.{Cpu}
use hyrule.Translate.Block.{Host, HostFits}
use hyrule.Translate.Dispatch.{OtherTranslators}

-- The memory is one word, whatever the address.
abbrev pub cell : Mmu ℕ
cell = record {
  read8 = λ g a. some (g % 2 ^ 8);
  read16 = λ g a. some (g % 2 ^ 16);
  read32 = λ g a. some (g % 2 ^ 32);
  write8 = λ g a v. some v;
  write16 = λ g a v. some v;
  write32 = λ g a v. some v;
}

below : (k n v : ℕ) → n < k → some n ≡ some v → v < k
below k n v h e = ground arith

pub cell-IsMmu : IsMmu cell
cell-IsMmu = record {
  byte = λ g a v e. below (2 ^ 8) (g % 2 ^ 8) v (omega arith) e;
  half = λ g a v e. below (2 ^ 16) (g % 2 ^ 16) v (omega arith) e;
  word = λ g a v e. below (2 ^ 32) (g % 2 ^ 32) v (omega arith) e;
}

abbrev pub host : Host ℕ
host = record { base = 0x7f0000001000; mmu = cell; junk = λ r. 0xdeadbeef }

-- x1 is -2^31, x2 is -1, x3 is 12.
abbrev pub hart : Hart ℕ
hart = record {
  regs = 0 ∷ 0x80000000 ∷ 0xffffffff ∷ 12 ∷ replicate 28 0;
  pc = 0x1000;
  guest = 0xcafe;
}

get_or-replicate : (n i : ℕ) → get_or {A = ℕ} (replicate n 0) i 0 ≡ 0
get_or-replicate zero i = refl
get_or-replicate (suc n) zero = refl
get_or-replicate (suc n) (suc i) = get_or-replicate n i

hart-words : (i : ℕ) → get_or hart.regs i 0 < 2 ^ 32
hart-words zero = omega arith
hart-words (suc zero) = omega arith
hart-words (suc (suc zero)) = omega arith
hart-words (suc (suc (suc zero))) = omega arith
hart-words (suc (suc (suc (suc i)))) = omega (arith, get_or-replicate 28 i)

pub hart-IsHart : IsHart hart
hart-IsHart = record { count = refl; words = hart-words; zero_reg = refl; pc_word = omega arith }

abbrev pub cpu : Cpu ℕ
cpu = record {
  rax = 1;
  rbx = 2;
  rcx = 3;
  rdx = 4;
  rsi = 5;
  rdi = 6;
  r8 = 7;
  zf = false;
  cf = true;
  sf = false;
  of = true;
  hart = hart;
}

pub host-HostFits : HostFits host
host-HostFits = omega arith

abbrev pub no_others : OtherTranslators
no_others = record { fence = λ pc i. none; supervisor_level = λ pc i. none; amo = λ pc i. none }
