-- ===== src/Translate/Tests/Decode.antt =====
-- Words decoded, and an immediate extended.
use hyrule.Prelude.{◌≡◌, arith}
use hyrule.Translate.Block.{encoding_type_uj}
use hyrule.Translate.Block.{encoding_type_b}
use hyrule.Translate.Decode.{instruction_decoding_per_type}
use hyrule.Translate.Decode.Fields.{decoded, decodes_uj, decodes_b}
use hyrule.Rv.Format.{format_uj, format_b}
use hyrule.Word.{extend, sign_extend32}
use hyrule.Word.Extend.{sign_extend32-extend}

decodes_b_example :
    instruction_decoding_per_type encoding_type_b (format_b 0x63 5 1 2 0xabc)
    ≡ decoded encoding_type_b 0x63 5 0 1 2 0 0xabc
decodes_b_example =
    decodes_b 0x63 5 1 (omega arith) (omega arith) (omega arith) 2 0xabc (omega arith) (omega arith)

decodes_uj_example :
    instruction_decoding_per_type encoding_type_uj (format_uj 0x6f 1 0xabcde)
    ≡ decoded encoding_type_uj 0x6f 0 1 0 0 0 0xabcde
decodes_uj_example = decodes_uj 0x6f 1 0xabcde (omega arith) (omega arith) (omega arith)

sign_extend32-extend_example : sign_extend32 0x800 11 ≡ extend 12 0x800
sign_extend32-extend_example = sign_extend32-extend 0x800 11 (omega arith) (omega arith)
