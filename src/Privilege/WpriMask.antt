-- ===== src/Privilege/WpriMask.antt =====
-- The masks of mstatus and of sstatus, `wpri_mask` in their entries, as the bits of a word that they keep.
use hyrule.Prelude.{ℕ, ◌+◌, ◌*◌, ◌/◌, ◌%◌, ◌≡◌, arith, bit_and, refl}
use hyrule.Prelude.Bits.{bit_and_mask, bit_and_step}

-- The bits 1, 3, 5, 7, 8, 11 and 12 of a word.
abbrev pub machine_view : ℕ → ℕ
machine_view w =
    w / 2 % 2 * 2 + w / 8 % 2 * 8 + w / 32 % 2 * 32 + w / 128 % 4 * 128 + w / 2048 % 4 * 2048

-- The bits 0, 1, 4, 5 and 8.
abbrev pub supervisor_view : ℕ → ℕ
supervisor_view w = w % 4 + w / 16 % 4 * 16 + w / 256 % 2 * 256

-- The lowest bit is kept or dropped.
keeps_bit : (a m : ℕ) → m % 2 ≡ 1 → bit_and a m ≡ bit_and (a / 2) (m / 2) * 2 + a % 2
keeps_bit a m odd = omega (arith, bit_and_step a m)

drops_bit : (a m : ℕ) → m % 2 ≡ 0 → bit_and a m ≡ bit_and (a / 2) (m / 2) * 2
drops_bit a m even = omega (arith, bit_and_step a m)

mask_51 : (w : ℕ) → bit_and w 51 ≡ w % 4 + w / 16 % 4 * 16
mask_51 w = omega (
  arith,
  keeps_bit w 51 refl,
  keeps_bit (w / 2) 25 refl,
  drops_bit (w / 2 / 2) 12 refl,
  drops_bit (w / 2 / 2 / 2) 6 refl,
  bit_and_mask 2 (w / 2 / 2 / 2 / 2),
)

mask_821 : (w : ℕ) → bit_and w 821 ≡ w % 2 + w / 4 % 2 * 4 + w / 16 % 4 * 16 + w / 256 % 4 * 256
mask_821 w = omega (
  arith,
  keeps_bit w 821 refl,
  drops_bit (w / 2) 410 refl,
  keeps_bit (w / 2 / 2) 205 refl,
  drops_bit (w / 2 / 2 / 2) 102 refl,
  mask_51 (w / 2 / 2 / 2 / 2),
)

pub mstatus_mask : (w : ℕ) → bit_and w 0x19aa ≡ machine_view w
mstatus_mask w = omega (
  arith,
  drops_bit w 6570 refl,
  keeps_bit (w / 2) 3285 refl,
  drops_bit (w / 2 / 2) 1642 refl,
  mask_821 (w / 2 / 2 / 2),
)

mask_19 : (w : ℕ) → bit_and w 19 ≡ w % 4 + w / 16 % 2 * 16
mask_19 w = omega (
  arith,
  keeps_bit w 19 refl,
  keeps_bit (w / 2) 9 refl,
  drops_bit (w / 2 / 2) 4 refl,
  drops_bit (w / 2 / 2 / 2) 2 refl,
  bit_and_mask 1 (w / 2 / 2 / 2 / 2),
)

pub sstatus_mask : (w : ℕ) → bit_and w 0x133 ≡ supervisor_view w
sstatus_mask w = omega (
  arith,
  keeps_bit w 307 refl,
  keeps_bit (w / 2) 153 refl,
  drops_bit (w / 2 / 2) 76 refl,
  drops_bit (w / 2 / 2 / 2) 38 refl,
  mask_19 (w / 2 / 2 / 2 / 2),
)
