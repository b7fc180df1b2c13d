-- ===== src/Prelude/Bits.antt =====
-- Laws of `bit_and`, `bit_or` and `bit_xor` at variables. Each is given by its lowest digit and the
-- halves of its operands, so the laws are inductions on halves: masks as remainders, disjoint fields
-- as sums, and bounds by a width.
use Prim.Native.Nat.{ℕ, zero, suc, ◌+◌, ◌-◌, ◌*◌, ◌/◌, ◌%◌, ◌^◌, ◌≤◌, ◌<◌, min, max}
use Prim.Native.Nat.{bit_and, bit_or, bit_xor, digits, bitwise, differ}
use Prim.Native.Nat.{bit_and-bitwise, bit_or-bitwise, bit_xor-bitwise}
use mathlib.Core.Path.{◌≡◌, refl, sym, ap, ◌∙◌}
use mathlib.Core.WellFounded
use native.Mathlib.Nat.{pow-suc, one-le-pow, div-div-eq-div-mul, mul_comm}
use native.Mathlib.Omega.{arith}
use hyrule.Prelude.Order.{lt_wf}

half_induction : (P : ℕ → Type 0) → P 0 → ((n : ℕ) → P (suc n / 2) → P (suc n)) → (a : ℕ) → P a
half_induction P base from_half a = WellFounded.induction lt_wf {C = P} a down
  where
    down : (n : ℕ) → ((m : ℕ) → m < n → P m) → P n
    down zero below = base
    down (suc n) below = from_half n (below (suc n / 2) (omega arith))

module _ (rest : ℕ → ℕ) (digit : ℕ → ℕ → ℕ) where
  -- Fuel beyond the first operand is not used.
  spare :
      (fuel k m a b : ℕ)
      → m ≡ fuel + k
      → a ≤ fuel
      → digits rest digit m a b ≡ digits rest digit fuel a b
  spare zero k zero zero b e le = refl
  spare zero k (suc m) zero b e le = refl
  spare (suc fuel) k zero a b e le = absurd (omega arith)
  spare (suc fuel) k (suc m) zero b e le = refl
  spare (suc fuel) k (suc m) (suc a) b e le =
      ap (λ (h : ℕ). h * 2 + digit (suc a % 2) (b % 2))
        (spare fuel k m (suc a / 2) (b / 2) (omega arith) (omega arith))
  spare zero k m (suc a) b e le = absurd (omega arith)

  lowest_digit :
      ((b : ℕ) → rest b ≡ rest (b / 2) * 2 + digit 0 (b % 2))
      → (a b : ℕ)
      → bitwise rest digit a b ≡ bitwise rest digit (a / 2) (b / 2) * 2 + digit (a % 2) (b % 2)
  lowest_digit at_zero zero b = at_zero b
  lowest_digit at_zero (suc a) b =
      ap (λ (h : ℕ). h * 2 + digit (suc a % 2) (b % 2))
        (spare (suc a / 2) (a - suc a / 2) a (suc a / 2) (b / 2) (omega arith) (omega arith))

pub bit_or_step : (a b : ℕ) → bit_or a b ≡ bit_or (a / 2) (b / 2) * 2 + max (a % 2) (b % 2)
bit_or_step a b =
    bit_or-bitwise a b
    ∙ lowest_digit (λ y. y) max (λ y. omega arith) a b
    ∙ ap (λ (h : ℕ). h * 2 + max (a % 2) (b % 2)) (sym (bit_or-bitwise (a / 2) (b / 2)))

pub bit_and_step : (a b : ℕ) → bit_and a b ≡ bit_and (a / 2) (b / 2) * 2 + min (a % 2) (b % 2)
bit_and_step a b =
    bit_and-bitwise a b
    ∙ lowest_digit (λ y. 0) min (λ y. omega arith) a b
    ∙ ap (λ (h : ℕ). h * 2 + min (a % 2) (b % 2)) (sym (bit_and-bitwise (a / 2) (b / 2)))

differ_zero : (b : ℕ) → differ 0 b ≡ b
differ_zero zero = refl
differ_zero (suc b) = refl

pub bit_xor_step : (a b : ℕ) → bit_xor a b ≡ bit_xor (a / 2) (b / 2) * 2 + differ (a % 2) (b % 2)
bit_xor_step a b =
    bit_xor-bitwise a b
    ∙ lowest_digit (λ y. y) differ (λ y. omega (arith, differ_zero (y % 2))) a b
    ∙ ap (λ (h : ℕ). h * 2 + differ (a % 2) (b % 2)) (sym (bit_xor-bitwise (a / 2) (b / 2)))

-- One operand is zero, or both are the same.
pub bit_or-zero : (a : ℕ) → bit_or a 0 ≡ a
bit_or-zero =
    half_induction (λ n. bit_or n 0 ≡ n) refl (λ n h. omega (arith, bit_or_step (suc n) 0))

bit_and-zero : (a : ℕ) → bit_and a 0 ≡ 0
bit_and-zero =
    half_induction (λ n. bit_and n 0 ≡ 0) refl (λ n h. omega (arith, bit_and_step (suc n) 0))

differ_self : (a : ℕ) → differ a a ≡ 0
differ_self zero = refl
differ_self (suc a) = differ_self a

pub bit_xor_self : (a : ℕ) → bit_xor a a ≡ 0
bit_xor_self =
    half_induction (λ n. bit_xor n n ≡ 0) refl
      (λ n h. omega (arith, bit_xor_step (suc n) (suc n), differ_self (suc n % 2)))

-- An operation on digits of which the bits are commutative and stay bits.
module _ (op digit : ℕ → ℕ → ℕ)
    (step : (a b : ℕ) → op a b ≡ op (a / 2) (b / 2) * 2 + digit (a % 2) (b % 2))
    (empty : op 0 0 ≡ 0) (bit : (a b : ℕ) → a ≤ 1 → b ≤ 1 → digit a b ≤ 1)
    (swap : (a b : ℕ) → a ≤ 1 → b ≤ 1 → digit a b ≡ digit b a) where
  width : (k a b : ℕ) → a < 2 ^ k → b < 2 ^ k → op a b < 2 ^ k
  width zero a b ha hb =
      let first : a ≡ 0 = omega arith in
      let second : b ≡ 0 = omega arith in rw (first, second, empty) (omega arith)
  width (suc k) a b ha hb = omega (
    arith,
    step a b,
    bit (a % 2) (b % 2) (omega arith) (omega arith),
    width k (a / 2) (b / 2) (omega (arith, pow-suc 2 k)) (omega (arith, pow-suc 2 k)),
    pow-suc 2 k,
  )

  exchange : (n a b : ℕ) → a + b ≤ n → op a b ≡ op b a
  exchange zero a b le =
      let first : a ≡ 0 = omega arith in let second : b ≡ 0 = omega arith in rw (first, second) refl
  exchange (suc n) zero zero le = refl
  exchange (suc n) a b le = omega (
    arith,
    exchange n (a / 2) (b / 2) (omega arith),
    swap (a % 2) (b % 2) (omega arith) (omega arith),
    step b a,
    step a b,
  )

differ_bit : (a b : ℕ) → a ≤ 1 → b ≤ 1 → differ a b ≤ 1
differ_bit zero b ha hb = hb
differ_bit (suc a) zero ha hb = ha
differ_bit (suc a) (suc b) ha hb = differ_bit a b (omega arith) (omega arith)

differ_swap : (a b : ℕ) → differ a b ≡ differ b a
differ_swap zero zero = refl
differ_swap zero (suc b) = refl
differ_swap (suc a) zero = refl
differ_swap (suc a) (suc b) = differ_swap a b

pub bit_and-lt : (k a b : ℕ) → a < 2 ^ k → b < 2 ^ k → bit_and a b < 2 ^ k
bit_and-lt = width bit_and min bit_and_step refl (λ a b p q. omega arith) (λ a b p q. omega arith)

pub bit_or-lt : (k a b : ℕ) → a < 2 ^ k → b < 2 ^ k → bit_or a b < 2 ^ k
bit_or-lt = width bit_or max bit_or_step refl (λ a b p q. omega arith) (λ a b p q. omega arith)

pub bit_xor-lt : (k a b : ℕ) → a < 2 ^ k → b < 2 ^ k → bit_xor a b < 2 ^ k
bit_xor-lt = width bit_xor differ bit_xor_step refl differ_bit (λ a b p q. differ_swap a b)

pub bit_and_comm : (a b : ℕ) → bit_and a b ≡ bit_and b a
bit_and_comm a b =
    exchange bit_and min bit_and_step refl (λ a b p q. omega arith) (λ a b p q. omega arith) (a + b)
      a b (omega arith)

pub bit_or_comm : (a b : ℕ) → bit_or a b ≡ bit_or b a
bit_or_comm a b =
    exchange bit_or max bit_or_step refl (λ a b p q. omega arith) (λ a b p q. omega arith) (a + b) a
      b (omega arith)

pub bit_xor_comm : (a b : ℕ) → bit_xor a b ≡ bit_xor b a
bit_xor_comm a b =
    exchange bit_xor differ bit_xor_step refl differ_bit (λ a b p q. differ_swap a b) (a + b) a b
      (omega arith)

shifted : (q k : ℕ) → 2 * (q * 2 ^ k) ≡ q * 2 ^ suc k
shifted q k = omega (arith, ap (λ (power : ℕ). q * power) (pow-suc 2 k))

-- `(q << k) | r` is a sum when `r` has at most `k` bits, and so is `r | (q << k)`.
pub bit_or_fields : (k q r : ℕ) → r < 2 ^ k → bit_or (q * 2 ^ k) r ≡ q * 2 ^ k + r
bit_or_fields zero q r small =
    let none_left : r ≡ 0 = omega arith in rw (none_left) (omega (arith, bit_or-zero (q * 1)))
bit_or_fields (suc k) q r small =
    let half : r / 2 < 2 ^ k = omega (arith, pow-suc 2 k) in
    ground (arith, shifted q k, bit_or_fields k q (r / 2) half, bit_or_step (q * 2 ^ suc k) r)

pub bit_or_fields_low : (k q r : ℕ) → r < 2 ^ k → bit_or r (q * 2 ^ k) ≡ q * 2 ^ k + r
bit_or_fields_low k q r small = bit_or_comm r (q * 2 ^ k) ∙ bit_or_fields k q r small

-- A mask of the `k` low bits is a remainder: it keeps the low field.
keeps_low : (k q r a : ℕ) → r < 2 ^ k → a ≡ q * 2 ^ k + r → bit_and a (2 ^ k - 1) ≡ r
keeps_low zero q r a small e = omega (arith, bit_and-zero a)
keeps_low (suc k) q r a small e = ground (
  arith,
  one-le-pow k 2,
  pow-suc 2 k,
  shifted q k,
  keeps_low k q (r / 2) (a / 2) (omega (arith, pow-suc 2 k)) (omega (arith, shifted q k)),
  bit_and_step a (2 ^ suc k - 1),
)

pub bit_and_mask : (k a : ℕ) → bit_and a (2 ^ k - 1) ≡ a % 2 ^ k
bit_and_mask k a =
    keeps_low k (a / 2 ^ k) (a % 2 ^ k) a (ground (arith, one-le-pow k 2))
      (ground (arith, one-le-pow k 2))

-- One bit.
pub bit_and_power : (k a : ℕ) → bit_and a (2 ^ k) ≡ a / 2 ^ k % 2 * 2 ^ k
bit_and_power zero a = ground (arith, bit_and_mask 1 a)
bit_and_power (suc k) a =
    let same : a / 2 ^ suc k ≡ a / 2 / 2 ^ k =
      rw (pow-suc 2 k, mul_comm (2 ^ k) 2) (sym (div-div-eq-div-mul a 2 (2 ^ k))) in
    ground (
      arith,
      same,
      pow-suc 2 k,
      shifted (a / 2 / 2 ^ k % 2) k,
      bit_and_power k (a / 2),
      bit_and_step a (2 ^ suc k),
    )

-- The highest bit is there already.
pub bit_or_top : (k r : ℕ) → r < 2 ^ k → bit_or (2 ^ k + r) (2 ^ k) ≡ 2 ^ k + r
bit_or_top k r small = ground (arith, bit_or_comm (2 ^ k + r) (2 ^ k), top k r small)
  where
    top : (k r : ℕ) → r < 2 ^ k → bit_or (2 ^ k) (2 ^ k + r) ≡ 2 ^ k + r
    top zero r small = let gone : r ≡ 0 = omega arith in rw gone refl
    top (suc k) r small =
        let half : r / 2 < 2 ^ k = omega (arith, pow-suc 2 k) in
        ground (arith, top k (r / 2) half, bit_or_step (2 ^ suc k) (2 ^ suc k + r), pow-suc 2 k)
