-- ===== src/Word/Product.antt =====
-- The products and quotients of the host and of the specification agree.
use hyrule.Prelude.{
  ℕ, suc, ◌+◌, ◌-◌, ◌*◌, ◌/◌, ◌%◌, ◌^◌, ◌≤◌, ◌<◌, ◌≡◌, ap, ◌∙◌, arith, ◌⊎◌, inl, inr,
}
use hyrule.Prelude.Int.{ℤ, pos, negsuc, ◌*ℤ◌, div_floor, sub_ℕ}
use native.Mathlib.Nat.{mod-eq_of_lt, mul-le-mul_left}
use hyrule.Word.{signed32, signed64, word, word64}

pub *ℤ_comm : (a b : ℤ) → a *ℤ b ≡ b *ℤ a
unfolding ◌*ℤ◌
*ℤ_comm a b = ground arith

pub word-lt : (a : ℤ) → word a < 2 ^ 32
word-lt (pos n) = omega arith
word-lt (negsuc n) = omega arith

-- The low half of a 64-bit pattern, and its high half.
pub word64_low : (a : ℤ) → word64 a % 2 ^ 32 ≡ word a
word64_low (pos n) = omega arith
word64_low (negsuc n) = omega arith

pub word64_high : (a : ℤ) → word64 a / 2 ^ 32 ≡ word (div_floor a (2 ^ 32))
unfolding div_floor
word64_high (pos n) = omega arith
word64_high (negsuc n) = omega arith

-- A word of 32 bits extended to 64 bits stands for the same integer.
pub signed64-word64 : (x : ℕ) → x < 2 ^ 32 → signed64 (word64 (signed32 x)) ≡ signed32 x
signed64-word64 x h = ground arith

pub signed64_small : (y : ℕ) → y < 2 ^ 32 → signed64 y ≡ pos y
signed64_small y h = ground arith

-- The word of a difference.
word-sub : (a b : ℕ) → (word (sub_ℕ a b) + b) % 2 ^ 32 ≡ a % 2 ^ 32
word-sub a b = ground arith

-- The two signs of a word.
pub signed32-cases :
    (x : ℕ)
    → x < 2 ^ 32
    → ((signed32 x ≡ pos x) × (x < 2 ^ 31))
      ⊎ ((signed32 x ≡ negsuc (2 ^ 32 - 1 - x)) × (2 ^ 31 ≤ x))
signed32-cases x h = ground arith

product_pos : (x y : ℕ) → word (pos x *ℤ pos y) ≡ x * y % 2 ^ 32
unfolding ◌*ℤ◌
product_pos x y = omega (arith, word-sub (x * y + 0 * 0) (x * 0 + 0 * y), word-lt (pos x *ℤ pos y))

product_neg : (n x y : ℕ) → suc n + x ≡ 2 ^ 32 → word (negsuc n *ℤ pos y) ≡ x * y % 2 ^ 32
unfolding ◌*ℤ◌
product_neg n x y e = omega (
  arith,
  word-sub (0 * y + suc n * 0) (0 * 0 + suc n * y),
  word-lt (negsuc n *ℤ pos y),
  ap (λ (t : ℕ). t * y) e,
)

product_neg_neg :
    (n k x y : ℕ)
    → suc n + x ≡ 2 ^ 32
    → suc k + y ≡ 2 ^ 32
    → word (negsuc n *ℤ negsuc k) ≡ x * y % 2 ^ 32
unfolding ◌*ℤ◌
product_neg_neg n k x y e e' = omega (
  arith,
  word-sub (0 * 0 + suc n * suc k) (0 * suc k + suc n * 0),
  word-lt (negsuc n *ℤ negsuc k),
  ap (λ (t : ℕ). t * y) e,
  ap (λ (t : ℕ). suc n * t) e',
)

-- The sign does not matter for the low half of a product.
pub word_product :
    (x y : ℕ) → x < 2 ^ 32 → y < 2 ^ 32 → word (signed32 x *ℤ signed32 y) ≡ x * y % 2 ^ 32
word_product x y hx hy = elim (signed32-cases x hx) [
  | inl p ↦ elim (signed32-cases y hy) [
    | inl q ↦ rw (p.0, q.0) (product_pos x y)
    | inr q ↦
        rw (p.0, q.0, *ℤ_comm (pos x))
          (product_neg (2 ^ 32 - 1 - y) y x (omega arith) ∙ omega arith)
  ]
  | inr p ↦ elim (signed32-cases y hy) [
    | inl q ↦ rw (p.0, q.0) (product_neg (2 ^ 32 - 1 - x) x y (omega arith))
    | inr q ↦
        rw (p.0, q.0)
          (product_neg_neg (2 ^ 32 - 1 - x) (2 ^ 32 - 1 - y) x y (omega arith) (omega arith))
  ]
]

-- The four products as the host computes them.
pub imul_low :
    (x y : ℕ)
    → x < 2 ^ 32
    → y < 2 ^ 32
    → word64 (signed32 (y % 2 ^ 32) *ℤ signed32 (x % 2 ^ 32)) % 2 ^ 32 % 2 ^ 32 ≡ x * y % 2 ^ 32
imul_low x y hx hy =
    rw (mod-eq_of_lt hx, mod-eq_of_lt hy, word64_low)
      (mod-eq_of_lt (word-lt (signed32 y *ℤ signed32 x))
        ∙ ap word (*ℤ_comm (signed32 y) (signed32 x))
        ∙ word_product x y hx hy)

pub imul_high :
    (x y : ℕ)
    → x < 2 ^ 32
    → y < 2 ^ 32
    → word64 (signed32 (y % 2 ^ 32) *ℤ signed32 (x % 2 ^ 32)) / 2 ^ 32 % 2 ^ 32
      ≡ word (div_floor (signed32 x *ℤ signed32 y) (2 ^ 32))
imul_high x y hx hy =
    rw (mod-eq_of_lt hx, mod-eq_of_lt hy, word64_high)
      (mod-eq_of_lt (word-lt (div_floor (signed32 y *ℤ signed32 x) (2 ^ 32)))
        ∙ ap (λ p. word (div_floor p (2 ^ 32))) (*ℤ_comm (signed32 y) (signed32 x)))

pub product-lt : (x y : ℕ) → x < 2 ^ 32 → y < 2 ^ 32 → y * x < 2 ^ 32 * 2 ^ 32
product-lt x y hx hy =
    let bound : y * x ≤ y * (2 ^ 32 - 1) = mul-le-mul_left y (omega arith) in omega arith

pub mul_high :
    (x y : ℕ)
    → x < 2 ^ 32
    → y < 2 ^ 32
    → y % 2 ^ 32 * (x % 2 ^ 32) / 2 ^ 32 % 2 ^ 32 ≡ x * y / 2 ^ 32
mul_high x y hx hy = rw (mod-eq_of_lt hx, mod-eq_of_lt hy) (omega (arith, product-lt x y hx hy))

pub imulq_high :
    (x y : ℕ)
    → x < 2 ^ 32
    → y < 2 ^ 32
    → word64 (signed64 (word64 (signed32 (x % 2 ^ 32))) *ℤ signed64 y) / 2 ^ 32 % 2 ^ 32
      ≡ word (div_floor (signed32 x *ℤ pos y) (2 ^ 32))
imulq_high x y hx hy =
    rw (mod-eq_of_lt hx, signed64-word64 x hx, signed64_small y hy, word64_high)
      (mod-eq_of_lt (word-lt (div_floor (signed32 x *ℤ pos y) (2 ^ 32))))
