-- ===== src/Word/Division.antt =====
-- Where the host's division agrees with the specification's, and where it faults.
use hyrule.Prelude.{ℕ, ◌+◌, ◌-◌, ◌*◌, ◌/◌, ◌%◌, ◌^◌, ◌≤◌, ◌<◌, ◌≡◌, ap, ◌∙◌, arith}
use hyrule.Prelude.{Bool, false, ◌&&◌, ◌||◌, ◌==◌, inl, inr}
use hyrule.Prelude.Int.{ℤ, pos, negsuc, quot, ltb_ℤ}
use native.Mathlib.Nat.{mod-eq_of_lt, div-le_self, mul-le-mul_left, div-mul-le_self}
use hyrule.Word.{signed32, signed64, word64}
use hyrule.Word.Product.{signed64-word64, signed32-cases}

-- The one quotient that has no pattern of 32 bits: -2^31 / -1.
unfoldable pub overflows : ℕ → ℕ → Bool
overflows x y = (x == 2 ^ 31) && (y == 2 ^ 32 - 1)

dividend_pattern :
    (x : ℕ) → x < 2 ^ 32 → word64 (signed32 x) / 2 ^ 32 % 2 ^ 32 * 2 ^ 32 + x ≡ word64 (signed32 x)
dividend_pattern x h = ground arith

-- EDX:EAX after the sign has been spread over EDX.
pub dividend :
    (x : ℕ)
    → x < 2 ^ 32
    → signed64 (word64 (signed32 (x % 2 ^ 32)) / 2 ^ 32 % 2 ^ 32 * 2 ^ 32 + x % 2 ^ 32) ≡ signed32 x
dividend x h = rw (mod-eq_of_lt h) (ap signed64 (dividend_pattern x h) ∙ signed64-word64 x h)

-- The test on which `idiv` faults.
abbrev pub idiv_faults : ℤ → ℤ → Bool
idiv_faults a b = ltb_ℤ (quot a b) (negsuc (2 ^ 31 - 1)) || ltb_ℤ (pos (2 ^ 31 - 1)) (quot a b)

div-le_half : (m d : ℕ) → 2 ≤ d → m / d ≤ m / 2
div-le_half m d h =
    let bound : m / d * 2 ≤ m / d * d = mul-le-mul_left (m / d) h in
    omega (arith, div-mul-le_self m d)

module _ (x y : ℕ) (hx : x < 2 ^ 32) (hy : y < 2 ^ 32) (nonzero : (y == 0) ≡ false) where
  pub idiv_faults-overflows : idiv_faults (signed32 x) (signed32 y) ≡ overflows x y
  unfolding quot overflows
  idiv_faults-overflows = elim (signed32-cases x hx) [
    | inl p ↦ elim (signed32-cases y hy) [
      | inl q ↦ rw (p.0, q.0) (ground (arith, div-le_self x y))
      | inr q ↦ rw (p.0, q.0) (ground (arith, div-le_self x (2 ^ 32 - y)))
    ]
    | inr p ↦ elim (signed32-cases y hy) [
      | inl q ↦ rw (p.0, q.0) (ground (arith, div-le_self (2 ^ 32 - x) y))
      | inr q ↦
          rw (p.0, q.0)
            (ground
              (arith, div-le_half (2 ^ 32 - x) (2 ^ 32 - y), div-le_self (2 ^ 32 - x) (2 ^ 32 - y)))
    ]
  ]
