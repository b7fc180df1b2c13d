-- ===== src/Translate/Dispatch/Table.antt =====
-- The table of translators, indexed by a decoding, and what is proved of each class of instruction.
use hyrule.Prelude.{ℕ, Bool, true, false, ◌≡◌, ap}
use hyrule.Host.Cpu.{Cpu}
use hyrule.Rv.{execute, reg}
use hyrule.Rv
use hyrule.Rv.Encode.{encode}
use hyrule.Translate.Block.{Host, Yields, Decoding, EncodingType}
use hyrule.Translate.Decode.{instruction_decoding_per_type}
use hyrule.Translate.Dispatch.{OtherTranslators, translate, translate_as}

-- Whether the block ends the translation unit: after jumps and branches.
unfoldable pub ends_unit : Rv.Instr → Bool
ends_unit (Rv.jal rd imm) = true
ends_unit (Rv.jalr rd rs1 imm) = true
ends_unit (Rv.branch o rs1 rs2 imm) = true
ends_unit _ = false

-- The table is indexed by the field that the decoding calls the opcode.
pub translate-decoded :
    (others : OtherTranslators) (pc : ℕ) (type : EncodingType) (intrs : ℕ) (d : Decoding)
    → instruction_decoding_per_type type intrs ≡ d
    → translate others pc intrs ≡ translate_as others d.opcode pc intrs
unfolding translate instruction_decoding_per_type
translate-decoded others pc EncodingType.encoding_type_u intrs d e =
    ap (λ (d : Decoding). translate_as others d.opcode pc intrs) e
translate-decoded others pc _ intrs d e =
    ap (λ (d : Decoding). translate_as others d.opcode pc intrs) e

module _ {M : Type 0} (others : OtherTranslators) (m : Host M) (s : Cpu M) where
  abbrev pub Translates : Rv.Instr → Type 0
  Translates i =
      Yields m s (translate others s.hart.pc (encode i)) (ends_unit i) (execute m.mmu i s.hart)
