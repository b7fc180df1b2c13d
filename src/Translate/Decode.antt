-- ===== src/Translate/Decode.antt =====
-- `instruction_decoding_per_type` of sandbox/translation.c.
pub mod Fields
use hyrule.Prelude.{ℕ, ◌*◌, ◌/◌, ◌^◌, bit_and, bit_or}
use hyrule.Translate.Block.{Decoding, EncodingType, encoding_type_u, encoding_type_uj}
use hyrule.Translate.Block.{encoding_type_i, encoding_type_s, encoding_type_b, encoding_type_r}

-- `memset(dec, 0x0, sizeof(struct decoding))` and the two fields that every type has.
abbrev pub cleared_decoding : EncodingType → ℕ → Decoding
cleared_decoding type intrs = record {
  opcode = bit_and intrs 0x7f;
  instr_encoding_type = type;
  funct3 = 0;
  rd_index = 0;
  rs1_index = 0;
  rs2_index = 0;
  funct7 = 0;
  imm = 0;
}

unfoldable pub instruction_decoding_per_type : EncodingType → ℕ → Decoding
instruction_decoding_per_type encoding_type_u intrs =
    record (cleared_decoding encoding_type_u intrs) {
      rd_index = bit_and (intrs / 2 ^ 7) 0x1f;
      imm = bit_and (intrs / 2 ^ 12) 0xfffff;
    }
instruction_decoding_per_type encoding_type_uj intrs =
    record (cleared_decoding encoding_type_uj intrs) {
      rd_index = bit_and (intrs / 2 ^ 7) 0x1f;
      imm =
          bit_or
            (bit_or
              (bit_or (bit_and (intrs / 2 ^ 21) 0x3ff) (bit_and (intrs / 2 ^ 20) 0x1 * 2 ^ 10))
              (bit_and (intrs / 2 ^ 12) 0xff * 2 ^ 11))
            (bit_and (intrs / 2 ^ 31) 0x1 * 2 ^ 19);
    }
instruction_decoding_per_type encoding_type_i intrs =
    record (cleared_decoding encoding_type_i intrs) {
      rd_index = bit_and (intrs / 2 ^ 7) 0x1f;
      funct3 = bit_and (intrs / 2 ^ 12) 7;
      rs1_index = bit_and (intrs / 2 ^ 15) 0x1f;
      imm = bit_and (intrs / 2 ^ 20) 0xfff;
    }
instruction_decoding_per_type encoding_type_s intrs =
    record (cleared_decoding encoding_type_s intrs) {
      funct3 = bit_and (intrs / 2 ^ 12) 7;
      rs1_index = bit_and (intrs / 2 ^ 15) 0x1f;
      rs2_index = bit_and (intrs / 2 ^ 20) 0x1f;
      imm = bit_or (bit_and (intrs / 2 ^ 7) 0x1f) (bit_and (intrs / 2 ^ 25) 0x7f * 2 ^ 5);
    }
instruction_decoding_per_type encoding_type_b intrs =
    record (cleared_decoding encoding_type_b intrs) {
      funct3 = bit_and (intrs / 2 ^ 12) 7;
      rs1_index = bit_and (intrs / 2 ^ 15) 0x1f;
      rs2_index = bit_and (intrs / 2 ^ 20) 0x1f;
      imm =
          bit_or
            (bit_or (bit_or (bit_and (intrs / 2 ^ 8) 0xf) (bit_and (intrs / 2 ^ 25) 0x3f * 2 ^ 4))
              (bit_and (intrs / 2 ^ 7) 0x1 * 2 ^ 10))
            (bit_and (intrs / 2 ^ 31) 0x1 * 2 ^ 11);
    }
instruction_decoding_per_type encoding_type_r intrs =
    record (cleared_decoding encoding_type_r intrs) {
      funct3 = bit_and (intrs / 2 ^ 12) 7;
      rd_index = bit_and (intrs / 2 ^ 7) 0x1f;
      rs1_index = bit_and (intrs / 2 ^ 15) 0x1f;
      rs2_index = bit_and (intrs / 2 ^ 20) 0x1f;
      funct7 = bit_and (intrs / 2 ^ 25) 0x7f;
    }
