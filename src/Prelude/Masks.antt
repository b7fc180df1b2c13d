-- ===== src/Prelude/Masks.antt =====
-- Masks of the high bits, as `~4095` and `~3` are.
use native.Mathlib.Nat.{mul_comm, div-div-eq-div-mul, pow-suc}
use hyrule.Prelude.{ℕ, zero, suc, ◌-◌, ◌*◌, ◌/◌, ◌%◌, ◌^◌, ◌≡◌, bit_and, arith, sym, ap, ◌∙◌}
use hyrule.Prelude.Bits.{bit_and_step, bit_and_mask}

pub bit_and_high : (k m a : ℕ) → bit_and a (m * 2 ^ k) ≡ bit_and (a / 2 ^ k) m * 2 ^ k
bit_and_high zero m a =
    let e : m * 2 ^ 0 ≡ m = omega arith in
    let e' : a / 2 ^ 0 ≡ a = omega arith in rw (e, e') (omega arith)
bit_and_high (suc k) m a =
    let same : a / 2 ^ suc k ≡ a / 2 / 2 ^ k =
      rw (pow-suc 2 k, mul_comm (2 ^ k) 2) (sym (div-div-eq-div-mul a 2 (2 ^ k))) in
    let double : (x : ℕ) → x * 2 ^ suc k ≡ 2 * (x * 2 ^ k) =
      λ x. omega (arith, ap (λ (power : ℕ). x * power) (pow-suc 2 k)) in
    ground (
      arith,
      same,
      double m,
      double (bit_and (a / 2 / 2 ^ k) m),
      bit_and_high k m (a / 2),
      bit_and_step a (m * 2 ^ suc k),
    )

-- Of a number of at most `j + k` bits, a mask of all but the `k` low ones leaves the multiple of 2^k.
pub bit_and_align :
    (k j a : ℕ)
    → a / 2 ^ k % 2 ^ j ≡ a / 2 ^ k
    → bit_and a ((2 ^ j - 1) * 2 ^ k) ≡ a / 2 ^ k * 2 ^ k
bit_and_align k j a small =
    let whole : bit_and (a / 2 ^ k) (2 ^ j - 1) ≡ a / 2 ^ k = bit_and_mask j (a / 2 ^ k) ∙ small in
    rw (bit_and_high k (2 ^ j - 1) a, whole) (omega arith)
