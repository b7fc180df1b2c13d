-- ===== src/Translate/Block.antt =====
-- sandbox/translation.h and sandbox/vm.h: what a translator hands to `COMMIT_TRANSLATION`, and
-- `struct decoding`.
use hyrule.Prelude.{ℕ, ◌+◌, ◌^◌, ◌≤◌, ◌<◌, ◌≡◌, Bool, List, Option}
use hyrule.Hart.{Hart, Mmu}
use hyrule.Host.Cpu.{Reg, Cpu, Env}
use hyrule.Host.Instr.{Instr, Outcome}
use hyrule.Host.Run.{run, hart_after}

-- `enum INSTRUCTION_ENCODING_TYPE`; no caller passes `ENCODING_TYPE_UNKNOWN`, on which the decoding
-- asserts.
pub data EncodingType : Type 0 where
  encoding_type_u encoding_type_uj encoding_type_i : EncodingType
  encoding_type_s encoding_type_b encoding_type_r : EncodingType

pub record Decoding : Type 0 where
  pub opcode : ℕ
  pub instr_encoding_type : EncodingType
  pub funct3 : ℕ
  pub rd_index : ℕ
  pub rs1_index : ℕ
  pub rs2_index : ℕ
  pub funct7 : ℕ
  pub imm : ℕ

-- The register indices of an instruction have five bits.
pub record IsDecoding (dec : Decoding) : Type 0 where
  pub rd_fits : dec.rd_index < 32
  pub rs1_fits : dec.rs1_index < 32
  pub rs2_fits : dec.rs2_index < 32

-- The code between the labels `*_translation_begin` and `*_translation_end`, the words that
-- `COMMIT_TRANSLATION` writes behind it, and whether the translator ends the translation unit
-- (`is_to_stop`) instead of moving on by four bytes.
pub record Block : Type 0 where
  pub code : List Instr
  pub params : List ℕ
  pub stops : Bool

-- What the host provides when it runs a block: r15, the functions of mmu.c, and what those leave in
-- the registers that a callee may change.
pub record Host (M : Type 0) : Type 0 where
  pub base : ℕ
  pub mmu : Mmu M
  pub junk : Reg → ℕ

-- The register file and the pc do not wrap round the end of the host's address space.
abbrev pub HostFits : {M : Type 0} → Host M → Type 0
HostFits m = m.base + 132 ≤ 2 ^ 64

module _ {M : Type 0} where
  abbrev pub env : Host M → Block → Env M
  env m b = record { base = m.base; params = b.params; mmu = m.mmu; junk = m.junk }

  -- The block run from its first instruction.
  abbrev pub execute_block : Host M → Block → Cpu M → Outcome (Hart M)
  execute_block m b s = hart_after (run (env m b) Option.none b.code s)

  -- A translator has found a block, which ends the translation unit or not, and the block comes to
  -- this outcome from `s`.
  pub record Yields (m : Host M) (s : Cpu M) (found : Option Block) (stops : Bool)
      (q : Outcome (Hart M)) : Type 0 where
    pub block : Block
    pub is_found : found ≡ Option.some block
    pub unit : block.stops ≡ stops
    pub outcome : execute_block m block s ≡ q
