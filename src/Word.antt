-- ===== src/Word.antt =====
-- 32- and 64-bit words as numbers, the integers that they stand for in two's complement, and
-- `sign_extend32` of sandbox/util.h.
pub mod Extend
pub mod Laws
pub mod Product
pub mod Division
use hyrule.Prelude.{ℕ, zero, suc, ◌+◌, ◌-◌, ◌*◌, ◌/◌, ◌%◌, ◌^◌, ltb, if◌then◌else◌, bit_or}
use hyrule.Prelude.Int.{ℤ, pos, negsuc}

-- The integer of a pattern of 32 bits, of 64 bits.
abbrev pub signed32 : ℕ → ℤ
signed32 w = if ltb w (2 ^ 31) then pos w else negsuc (2 ^ 32 - 1 - w)

abbrev pub signed64 : ℕ → ℤ
signed64 w = if ltb w (2 ^ 63) then pos w else negsuc (2 ^ 64 - 1 - w)

-- The pattern of an integer, cut off at the width.
abbrev pub word : ℤ → ℕ
word (pos n) = n % 2 ^ 32
word (negsuc n) = 2 ^ 32 - 1 - n % 2 ^ 32

abbrev pub word64 : ℤ → ℕ
word64 (pos n) = n % 2 ^ 64
word64 (negsuc n) = 2 ^ 64 - 1 - n % 2 ^ 64

-- A word of `w` bits extended to 32 bits by its sign.
abbrev pub extend : ℕ → ℕ → ℕ
extend w x = if ltb x (2 ^ (w - 1)) then x else x + 2 ^ 32 - 2 ^ w

-- `for (p = sign_bit; p <= 31; p++) ret |= (sign << p)`, with the rounds left.
pub extend_loop : ℕ → ℕ → ℕ → ℕ → ℕ
extend_loop zero p sign ret = ret
extend_loop (suc left) p sign ret =
    extend_loop left (p + 1) sign (bit_or ret (sign * 2 ^ p % 2 ^ 32))

-- The `int32_t` result is its pattern.
pub sign_extend32 : ℕ → ℕ → ℕ
unfolding extend_loop
sign_extend32 x sign_bit = extend_loop (32 - sign_bit) sign_bit (x / 2 ^ sign_bit % 2) x
