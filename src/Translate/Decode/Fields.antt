-- ===== src/Translate/Decode/Fields.antt =====
-- `instruction_decoding_per_type` gives back the fields that the manual's formats put together.
use hyrule.Prelude.{ℕ, ◌+◌, ◌-◌, ◌*◌, ◌/◌, ◌%◌, ◌^◌, ◌<◌, ◌≡◌, refl, ◌∙◌, arith, bit_and, bit_or}
use hyrule.Prelude.Bits.{bit_and_mask, bit_or_fields_low}
use hyrule.Rv.Format.{format_u, format_uj, format_i, format_s, format_b, format_r}
use hyrule.Translate.Block.{Decoding, EncodingType, encoding_type_u, encoding_type_uj}
use hyrule.Translate.Block.{encoding_type_i, encoding_type_s, encoding_type_b, encoding_type_r}
use hyrule.Translate.Decode.{instruction_decoding_per_type}

-- A decoding by its fields: opcode, funct3, rd, rs1, rs2, funct7 and immediate.
abbrev pub decoded : EncodingType → ℕ → ℕ → ℕ → ℕ → ℕ → ℕ → ℕ → Decoding
decoded type op f3 rd rs1 rs2 f7 imm = record {
  opcode = op;
  instr_encoding_type = type;
  funct3 = f3;
  rd_index = rd;
  rs1_index = rs1;
  rs2_index = rs2;
  funct7 = f7;
  imm = imm;
}

-- `n` bits behind `k` bits.
field : (k n w v : ℕ) → w / 2 ^ k % 2 ^ n ≡ v → bit_and (w / 2 ^ k) (2 ^ n - 1) ≡ v
field k n w v h = bit_and_mask n (w / 2 ^ k) ∙ h

low_field : (w v : ℕ) → w % 2 ^ 7 ≡ v → bit_and w 0x7f ≡ v
low_field w v h = bit_and_mask 7 w ∙ h

-- Two parts of an immediate are put together.
joins : (k a b v : ℕ) → a < 2 ^ k → b * 2 ^ k + a ≡ v → bit_or a (b * 2 ^ k) ≡ v
joins k a b v fits h = bit_or_fields_low k b a fits ∙ h

module _ (op rd imm : ℕ) (op_fits : op < 2 ^ 7) (rd_fits : rd < 2 ^ 5)
    (imm_fits : imm < 2 ^ 20) where
  -- Decoding a word put together in the U format gives back the opcode, rd and the 20-bit immediate,
  -- for fields within their widths, and zero in the other fields.
  pub decodes_u :
      instruction_decoding_per_type encoding_type_u (format_u op rd imm)
      ≡ decoded encoding_type_u op 0 rd 0 0 0 imm
  unfolding instruction_decoding_per_type format_u
  decodes_u =
      let w = format_u op rd imm in
      rw
        (
          low_field w op (omega arith),
          field 7 5 w rd (omega arith),
          field 12 20 w imm (omega arith),
        )
        refl

  -- Decoding a word put together in the J format gives back the opcode, rd and the scattered 20-bit
  -- immediate, for fields within their widths, and zero in the other fields.
  pub decodes_uj :
      instruction_decoding_per_type encoding_type_uj (format_uj op rd imm)
      ≡ decoded encoding_type_uj op 0 rd 0 0 0 imm
  unfolding instruction_decoding_per_type format_uj
  decodes_uj =
      let w = format_uj op rd imm in
      rw
        (
          low_field w op (omega arith),
          field 7 5 w rd (omega arith),
          field 21 10 w (imm % 2 ^ 10) (omega arith),
          field 20 1 w (imm / 2 ^ 10 % 2) (omega arith),
          field 12 8 w (imm / 2 ^ 11 % 2 ^ 8) (omega arith),
          field 31 1 w (imm / 2 ^ 19) (omega arith),
          joins 10 (imm % 2 ^ 10) (imm / 2 ^ 10 % 2) (imm % 2 ^ 11) (omega arith) (omega arith),
          joins 11 (imm % 2 ^ 11) (imm / 2 ^ 11 % 2 ^ 8) (imm % 2 ^ 19) (omega arith) (omega arith),
          joins 19 (imm % 2 ^ 19) (imm / 2 ^ 19) imm (omega arith) (omega arith),
        )
        refl

module _ (op f3 rs1 : ℕ) (op_fits : op < 2 ^ 7) (f3_fits : f3 < 2 ^ 3)
    (rs1_fits : rs1 < 2 ^ 5) where
  module _ (rd : ℕ) (rd_fits : rd < 2 ^ 5) where
    -- Decoding a word put together in the I format gives back the opcode, funct3, rd, rs1 and the
    -- immediate, for fields within their widths, and zero in the other fields.
    pub decodes_i :
        (imm : ℕ)
        → imm < 2 ^ 12
        → instruction_decoding_per_type encoding_type_i (format_i op rd f3 rs1 imm)
          ≡ decoded encoding_type_i op f3 rd rs1 0 0 imm
    unfolding instruction_decoding_per_type format_i
    decodes_i imm imm_fits =
        let w = format_i op rd f3 rs1 imm in
        rw
          (
            low_field w op (omega arith),
            field 12 3 w f3 (omega arith),
            field 7 5 w rd (omega arith),
            field 15 5 w rs1 (omega arith),
            field 20 12 w imm (omega arith),
          )
          refl

    -- Decoding a word put together in the R format gives back the opcode, funct3, rd, rs1, rs2 and
    -- funct7, for fields within their widths, and zero in the other fields.
    pub decodes_r :
        (rs2 f7 : ℕ)
        → rs2 < 2 ^ 5
        → f7 < 2 ^ 7
        → instruction_decoding_per_type encoding_type_r (format_r op rd f3 rs1 rs2 f7)
          ≡ decoded encoding_type_r op f3 rd rs1 rs2 f7 0
    unfolding instruction_decoding_per_type format_r
    decodes_r rs2 f7 rs2_fits f7_fits =
        let w = format_r op rd f3 rs1 rs2 f7 in
        rw
          (
            low_field w op (omega arith),
            field 12 3 w f3 (omega arith),
            field 7 5 w rd (omega arith),
            field 15 5 w rs1 (omega arith),
            field 20 5 w rs2 (omega arith),
            field 25 7 w f7 (omega arith),
          )
          refl

  module _ (rs2 imm : ℕ) (rs2_fits : rs2 < 2 ^ 5) (imm_fits : imm < 2 ^ 12) where
    -- Decoding a word put together in the S format gives back the opcode, funct3, rs1, rs2 and the
    -- split immediate, for fields within their widths, and zero in the other fields.
    pub decodes_s :
        instruction_decoding_per_type encoding_type_s (format_s op f3 rs1 rs2 imm)
        ≡ decoded encoding_type_s op f3 0 rs1 rs2 0 imm
    unfolding instruction_decoding_per_type format_s
    decodes_s =
        let w = format_s op f3 rs1 rs2 imm in
        rw
          (
            low_field w op (omega arith),
            field 12 3 w f3 (omega arith),
            field 15 5 w rs1 (omega arith),
            field 20 5 w rs2 (omega arith),
            field 7 5 w (imm % 2 ^ 5) (omega arith),
            field 25 7 w (imm / 2 ^ 5) (omega arith),
            joins 5 (imm % 2 ^ 5) (imm / 2 ^ 5) imm (omega arith) (omega arith),
          )
          refl

    -- Decoding a word put together in the B format gives back the opcode, funct3, rs1, rs2 and the
    -- scattered immediate, for fields within their widths, and zero in the other fields.
    pub decodes_b :
        instruction_decoding_per_type encoding_type_b (format_b op f3 rs1 rs2 imm)
        ≡ decoded encoding_type_b op f3 0 rs1 rs2 0 imm
    unfolding instruction_decoding_per_type format_b
    decodes_b =
        let w = format_b op f3 rs1 rs2 imm in
        rw
          (
            low_field w op (omega arith),
            field 12 3 w f3 (omega arith),
            field 15 5 w rs1 (omega arith),
            field 20 5 w rs2 (omega arith),
            field 8 4 w (imm % 2 ^ 4) (omega arith),
            field 25 6 w (imm / 2 ^ 4 % 2 ^ 6) (omega arith),
            field 7 1 w (imm / 2 ^ 10 % 2) (omega arith),
            field 31 1 w (imm / 2 ^ 11) (omega arith),
            joins 4 (imm % 2 ^ 4) (imm / 2 ^ 4 % 2 ^ 6) (imm % 2 ^ 10) (omega arith) (omega arith),
            joins 10 (imm % 2 ^ 10) (imm / 2 ^ 10 % 2) (imm % 2 ^ 11) (omega arith) (omega arith),
            joins 11 (imm % 2 ^ 11) (imm / 2 ^ 11) imm (omega arith) (omega arith),
          )
          refl
