-- ===== src/Word/Laws.antt =====
-- What the host's arithmetic on patterns of 32 bits means for the words and integers of the
-- specification.
use hyrule.Prelude.{ℕ, ◌+◌, ◌-◌, ◌*◌, ◌/◌, ◌%◌, ◌^◌, ◌<◌, ◌≡◌, arith, ◌∙◌, ap, xor, ◌&&◌}
use hyrule.Prelude.{Bool, true, false, ltb, leb, ◌==◌, if◌then◌else◌}
use hyrule.Prelude.{bit_and, bit_or, bit_xor}
use hyrule.Prelude.Bits.{bit_and_mask, bit_and_comm, bit_or_comm, bit_xor_comm}
use hyrule.Prelude.Bits.{bit_and-lt, bit_or-lt, bit_xor-lt}
use hyrule.Prelude.Int.{ℤ, pos, negsuc, ltb_ℤ, div_floor}
use native.Mathlib.Nat.{div-le_self, mod-eq_of_lt, le_trans}
use Prim.Native.Nat.{suc-le-suc}
use hyrule.Word.{signed32, word, extend}
use hyrule.Host.Instr.{shift_value, shl, shr, sar}

-- SF ≠ OF after a comparison is the signed order.
pub signed_less :
    (x y : ℕ)
    → x < 2 ^ 32
    → y < 2 ^ 32
    → xor (leb (2 ^ 31) ((x + 2 ^ 32 - y) % 2 ^ 32)) (
        xor (leb (2 ^ 31) x) (leb (2 ^ 31) y)
        && xor (leb (2 ^ 31) ((x + 2 ^ 32 - y) % 2 ^ 32)) (leb (2 ^ 31) x))
      ≡ ltb_ℤ (signed32 x) (signed32 y)
signed_less x y hx hy = ground arith

-- The same on the low halves of registers that hold words.
pub signed_less32 :
    (x y : ℕ)
    → x < 2 ^ 32
    → y < 2 ^ 32
    → xor (leb (2 ^ 31) ((x % 2 ^ 32 + 2 ^ 32 - y % 2 ^ 32) % 2 ^ 32)) (
        xor (leb (2 ^ 31) (x % 2 ^ 32)) (leb (2 ^ 31) (y % 2 ^ 32))
        && xor
            (leb (2 ^ 31) ((x % 2 ^ 32 + 2 ^ 32 - y % 2 ^ 32) % 2 ^ 32))
            (leb (2 ^ 31) (x % 2 ^ 32)))
      ≡ ltb_ℤ (signed32 x) (signed32 y)
signed_less32 x y hx hy = rw (mod-eq_of_lt hx, mod-eq_of_lt hy) (signed_less x y hx hy)

pub less32 : (x y : ℕ) → x < 2 ^ 32 → y < 2 ^ 32 → ltb (x % 2 ^ 32) (y % 2 ^ 32) ≡ ltb x y
less32 x y hx hy = rw (mod-eq_of_lt hx, mod-eq_of_lt hy)

-- A condition set into the low byte and extended by zeros.
pub set_low_value :
    (c : ℕ) (t : Bool)
    → (c / 256 * 256 + (if t then 1 else 0)) % 2 ^ 8 % 2 ^ 32 ≡ (if t then 1 else 0)
set_low_value c true = omega arith
set_low_value c false = omega arith

-- `sar` divides the signed value and rounds down.
pub sar_floor : (x k : ℕ) → x < 2 ^ 32 → shift_value sar k x ≡ word (div_floor (signed32 x) (2 ^ k))
unfolding div_floor
sar_floor x k hx = ground (arith, div-le_self x (2 ^ k), div-le_self (2 ^ 32 - 1 - x) (2 ^ k))

-- The operands of the bitwise instructions are exchanged, and cut to words that they are already.
pub and_exchanged :
    (x y : ℕ) → x < 2 ^ 32 → y < 2 ^ 32 → bit_and (y % 2 ^ 32) (x % 2 ^ 32) % 2 ^ 32 ≡ bit_and x y
and_exchanged x y hx hy = ground (arith, bit_and_comm x y, bit_and-lt 32 x y)

pub or_exchanged :
    (x y : ℕ) → x < 2 ^ 32 → y < 2 ^ 32 → bit_or (y % 2 ^ 32) (x % 2 ^ 32) % 2 ^ 32 ≡ bit_or x y
or_exchanged x y hx hy = ground (arith, bit_or_comm x y, bit_or-lt 32 x y)

pub xor_exchanged :
    (x y : ℕ) → x < 2 ^ 32 → y < 2 ^ 32 → bit_xor (y % 2 ^ 32) (x % 2 ^ 32) % 2 ^ 32 ≡ bit_xor x y
xor_exchanged x y hx hy = ground (arith, bit_xor_comm x y, bit_xor-lt 32 x y)

-- The count of a shift: five bits.
pub count_mask : (y : ℕ) → bit_and (y % 2 ^ 32) 31 ≡ y % 32
count_mask y = omega (arith, bit_and_mask 5 (y % 2 ^ 32))

mod_twice : (y : ℕ) → y % 32 % 32 ≡ y % 32
mod_twice y = omega arith

word_mod : (a : ℤ) → word a % 2 ^ 32 ≡ word a
word_mod (pos n) = omega arith
word_mod (negsuc n) = omega arith

pub shl_count :
    (x y : ℕ)
    → x < 2 ^ 32
    → shift_value shl (bit_and (y % 2 ^ 32) 31 % 32) (x % 2 ^ 32) % 2 ^ 32
      ≡ x * 2 ^ (y % 32) % 2 ^ 32
shl_count x y hx = rw (count_mask y, mod_twice y, mod-eq_of_lt hx) (omega arith)

pub shr_count :
    (x y : ℕ)
    → x < 2 ^ 32
    → shift_value shr (bit_and (y % 2 ^ 32) 31 % 32) (x % 2 ^ 32) % 2 ^ 32 ≡ x / 2 ^ (y % 32)
shr_count x y hx =
    rw (count_mask y, mod_twice y, mod-eq_of_lt hx)
      (mod-eq_of_lt (le_trans (suc-le-suc (div-le_self x (2 ^ (y % 32)))) hx))

pub sar_count :
    (x y : ℕ)
    → x < 2 ^ 32
    → shift_value sar (bit_and (y % 2 ^ 32) 31 % 32) (x % 2 ^ 32) % 2 ^ 32
      ≡ word (div_floor (signed32 x) (2 ^ (y % 32)))
sar_count x y hx =
    rw (count_mask y, mod_twice y, mod-eq_of_lt hx)
      (ap (λ t. t % 2 ^ 32) (sar_floor x (y % 32) hx)
        ∙ word_mod (div_floor (signed32 x) (2 ^ (y % 32))))

-- The same for a second operand that has passed through `movl` once more.
mod_mod : (y : ℕ) → y % 2 ^ 32 % 2 ^ 32 ≡ y % 2 ^ 32
mod_mod y = omega arith

pub extend-lt : (x : ℕ) → x < 2 ^ 12 → extend 12 x < 2 ^ 32
extend-lt x h = ground arith

pub add_imm :
    (x y : ℕ)
    → x < 2 ^ 32
    → y < 2 ^ 32
    → (x % 2 ^ 32 + y % 2 ^ 32 % 2 ^ 32) % 2 ^ 32 % 2 ^ 32 ≡ (x + y) % 2 ^ 32
add_imm x y hx hy = omega arith

pub and_imm :
    (x y : ℕ)
    → x < 2 ^ 32
    → y < 2 ^ 32
    → bit_and (x % 2 ^ 32) (y % 2 ^ 32 % 2 ^ 32) % 2 ^ 32 ≡ bit_and x y
and_imm x y hx hy = rw (mod_mod y) (ground (arith, bit_and-lt 32 x y))

pub or_imm :
    (x y : ℕ)
    → x < 2 ^ 32
    → y < 2 ^ 32
    → bit_or (x % 2 ^ 32) (y % 2 ^ 32 % 2 ^ 32) % 2 ^ 32 ≡ bit_or x y
or_imm x y hx hy = rw (mod_mod y) (ground (arith, bit_or-lt 32 x y))

pub xor_imm :
    (x y : ℕ)
    → x < 2 ^ 32
    → y < 2 ^ 32
    → bit_xor (x % 2 ^ 32) (y % 2 ^ 32 % 2 ^ 32) % 2 ^ 32 ≡ bit_xor x y
xor_imm x y hx hy = rw (mod_mod y) (ground (arith, bit_xor-lt 32 x y))

pub shl_imm_count :
    (x y : ℕ)
    → x < 2 ^ 32
    → shift_value shl (bit_and (y % 2 ^ 32 % 2 ^ 32) 31 % 32) (x % 2 ^ 32) % 2 ^ 32
      ≡ x * 2 ^ (y % 32) % 2 ^ 32
shl_imm_count x y hx = rw (mod_mod y) (shl_count x y hx)

pub shr_imm_count :
    (x y : ℕ)
    → x < 2 ^ 32
    → shift_value shr (bit_and (y % 2 ^ 32 % 2 ^ 32) 31 % 32) (x % 2 ^ 32) % 2 ^ 32
      ≡ x / 2 ^ (y % 32)
shr_imm_count x y hx = rw (mod_mod y) (shr_count x y hx)

pub sar_imm_count :
    (x y : ℕ)
    → x < 2 ^ 32
    → shift_value sar (bit_and (y % 2 ^ 32 % 2 ^ 32) 31 % 32) (x % 2 ^ 32) % 2 ^ 32
      ≡ word (div_floor (signed32 x) (2 ^ (y % 32)))
sar_imm_count x y hx = rw (mod_mod y) (sar_count x y hx)

pub equal32 : (x y : ℕ) → x < 2 ^ 32 → y < 2 ^ 32 → (y % 2 ^ 32 == x % 2 ^ 32) ≡ (x == y)
equal32 x y hx hy = rw (mod-eq_of_lt hx, mod-eq_of_lt hy) (ground arith)
