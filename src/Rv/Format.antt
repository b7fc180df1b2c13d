-- ===== src/Rv/Format.antt =====
-- The instruction formats of the RISC-V manual, as sums of fields.
use hyrule.Prelude.{ℕ, ◌+◌, ◌*◌, ◌/◌, ◌%◌, ◌^◌}

-- The six formats. The immediate of `uj` is the offset without its lowest bit, that of `b` too.
unfoldable pub format_r : ℕ → ℕ → ℕ → ℕ → ℕ → ℕ → ℕ
format_r op rd f3 rs1 rs2 f7 =
    op + rd * 2 ^ 7 + f3 * 2 ^ 12 + rs1 * 2 ^ 15 + rs2 * 2 ^ 20 + f7 * 2 ^ 25

unfoldable pub format_i : ℕ → ℕ → ℕ → ℕ → ℕ → ℕ
format_i op rd f3 rs1 imm = op + rd * 2 ^ 7 + f3 * 2 ^ 12 + rs1 * 2 ^ 15 + imm * 2 ^ 20

-- imm[4:0] at 7, imm[11:5] at 25.
unfoldable pub format_s : ℕ → ℕ → ℕ → ℕ → ℕ → ℕ
format_s op f3 rs1 rs2 imm =
    op + imm % 2 ^ 5 * 2 ^ 7 + f3 * 2 ^ 12 + rs1 * 2 ^ 15 + rs2 * 2 ^ 20 + imm / 2 ^ 5 * 2 ^ 25

-- imm[11] at 7, imm[4:1] at 8, imm[10:5] at 25, imm[12] at 31.
unfoldable pub format_b : ℕ → ℕ → ℕ → ℕ → ℕ → ℕ
format_b op f3 rs1 rs2 imm =
    op
    + imm / 2 ^ 10 % 2 * 2 ^ 7
    + imm % 2 ^ 4 * 2 ^ 8
    + f3 * 2 ^ 12
    + rs1 * 2 ^ 15
    + rs2 * 2 ^ 20
    + imm / 2 ^ 4 % 2 ^ 6 * 2 ^ 25
    + imm / 2 ^ 11 * 2 ^ 31

unfoldable pub format_u : ℕ → ℕ → ℕ → ℕ
format_u op rd imm = op + rd * 2 ^ 7 + imm * 2 ^ 12

-- imm[19:12] at 12, imm[11] at 20, imm[10:1] at 21, imm[20] at 31.
unfoldable pub format_uj : ℕ → ℕ → ℕ → ℕ
format_uj op rd imm =
    op
    + rd * 2 ^ 7
    + imm / 2 ^ 11 % 2 ^ 8 * 2 ^ 12
    + imm / 2 ^ 10 % 2 * 2 ^ 20
    + imm % 2 ^ 10 * 2 ^ 21
    + imm / 2 ^ 19 * 2 ^ 31
