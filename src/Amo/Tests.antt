-- ===== src/Amo/Tests.antt =====
-- The theorems on AMO instructions on a concrete hart, with one word of memory.
use hyrule.Prelude.{ℕ, zero, suc, ◌^◌, ◌<◌, ◌≡◌, refl, ap, arith, false, none, some}
use hyrule.Prelude.{List, ◌∷◌, get_or, set, replicate}
use hyrule.Prelude.Returns.{Returns}
use hyrule.Hart.{Mmu, IsHart}
use hyrule.Amo.{
  AmoState, amo_instruction, amo_instruction_slowpath, amoadd_slowpath, lr_slowpath, sc_slowpath,
  and_then,
}
use hyrule.Amo.Refines.{amoadd, hart_of, execute_amo, amo_instruction-refines}
use hyrule.Amo.Reserve.{no_item, lr-then_sc}
use hyrule.Amo.Table.{IsTable, amo_instruction-IsTable}

-- Every address holds the same word.
abbrev one_word : Mmu ℕ
one_word = record {
  read8 = λ g a. none;
  read16 = λ g a. none;
  read32 = λ g a. some g;
  write8 = λ g a v. none;
  write16 = λ g a v. none;
  write32 = λ g a v. some v;
}

abbrev registers : List ℕ
registers = 0 ∷ 8 ∷ 5 ∷ replicate 29 0

abbrev before : AmoState ℕ
before = record {
  hart = record { regs = registers; pc = 400; guest = 70 };
  hart_id = 0;
  reservations = replicate 16 no_item;
  next_pointer = 0;
}

get_or-replicate : {A : Type 0} (n i : ℕ) (a : A) → get_or (replicate n a) i a ≡ a
get_or-replicate zero i a = refl
get_or-replicate (suc n) zero a = refl
get_or-replicate (suc n) (suc i) a = get_or-replicate n i a

words : (i : ℕ) → get_or registers i 0 < 2 ^ 32
words zero = omega arith
words (suc zero) = omega arith
words (suc (suc zero)) = omega arith
words (suc (suc (suc i))) = omega (arith, get_or-replicate {A = ℕ} 29 i 0)

before-IsHart : IsHart before.hart
before-IsHart = record { count = refl; words = words; zero_reg = refl; pc_word = omega arith }

before-IsTable : IsTable before
before-IsTable = record { items = refl; pointer = omega arith }

amo_instruction-refines_example :
    hart_of one_word (amo_instruction one_word before 1 2 3 0)
    ≡ execute_amo one_word amoadd 1 2 3 before.hart
amo_instruction-refines_example =
    amo_instruction-refines one_word amoadd before 1 2 3 before-IsHart (omega arith)

lr-then_sc_example :
    Returns
      (and_then (lr_slowpath one_word before 1 0 3) (λ d. sc_slowpath one_word d 1 2 4))
      (λ d. d.hart ≡ record before.hart { regs = set (set registers 3 70) 4 0; guest = 5 })
lr-then_sc_example =
    lr-then_sc one_word before 1 3 1 2 4 70 5 before-IsTable (omega arith) refl refl refl

none_reserves : (i : ℕ) → (get_or (replicate 16 no_item) i no_item).valid ≡ false
none_reserves i = ap (λ item. item.valid) (get_or-replicate 16 i no_item)

abbrev after_add : AmoState ℕ
after_add = record before { hart = record { regs = set registers 3 70; pc = 404; guest = 75 } }

adds : amo_instruction one_word before 1 2 3 0 ≡ some after_add
unfolding amo_instruction amo_instruction_slowpath amoadd_slowpath
adds = refl

amo_instruction-IsTable_example : IsTable after_add
amo_instruction-IsTable_example =
    amo_instruction-IsTable one_word before 1 2 3 0 after_add before-IsTable adds
