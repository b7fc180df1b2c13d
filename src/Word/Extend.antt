-- ===== src/Word/Extend.antt =====
-- The loop of `sign_extend32` in sandbox/util.h computes the extension by the sign bit.
use hyrule.Prelude.{ℕ, zero, suc, ◌+◌, ◌-◌, ◌*◌, ◌/◌, ◌%◌, ◌^◌, ◌≤◌, ◌<◌, ◌≡◌, refl, ap, arith}
use hyrule.Prelude.{bit_or, dec_lt, ◌∙◌}
use hyrule.Prelude.Bits.{bit_or_fields_low, bit_or_top, bit_or-zero}
use native.Mathlib.Nat.{pow-suc, mod-eq_of_lt, pow-le-pow_right, div-eq_of_lt, div-eq_of_lt-le}
use native.Mathlib.Numerals.{towards_suc}
use hyrule.Word.{extend, extend_loop, sign_extend32}

loop_clear : (left p x : ℕ) → extend_loop left p 0 x ≡ x
unfolding extend_loop
loop_clear zero p x = refl
loop_clear (suc left) p x =
    ap (λ (b : ℕ). extend_loop left (p + 1) 0 (bit_or x b)) (omega arith)
    ∙ ap (extend_loop left (p + 1) 0) (bit_or-zero x)
    ∙ loop_clear left (p + 1) x

pow_next : (p : ℕ) → 2 ^ (p + 1) ≡ 2 ^ p * 2
pow_next p = simp towards_suc (pow-suc 2 p)

one_bit : (p : ℕ) → p < 32 → 1 * 2 ^ p % 2 ^ 32 ≡ 1 * 2 ^ p
one_bit p lt = mod-eq_of_lt (
    omega (
      arith,
      pow-suc 2 p,
      pow-le-pow_right {n = 2} (omega arith) {i = p + 1} {j = 32} (omega arith),
      pow_next p,
    ))

-- Each round adds a bit above those that are there.
loop_set : (left p x : ℕ) → x < 2 ^ p → p + left ≡ 32 → extend_loop left p 1 x + 2 ^ p ≡ x + 2 ^ 32
unfolding extend_loop
loop_set zero p x small e = let e' : p ≡ 32 = omega arith in rw e' (omega arith)
loop_set (suc left) p x small e =
    rw (one_bit p (omega arith), bit_or_fields_low p 1 x small)
      (omega (
        arith,
        pow_next p,
        loop_set left (p + 1) (1 * 2 ^ p + x) (omega (arith, pow_next p)) (omega arith),
      ))

-- With the sign bit set: the first round sets it again.
loop_sign :
    (left b r : ℕ)
    → r < 2 ^ b
    → b + suc left ≡ 32
    → extend_loop (suc left) b 1 (2 ^ b + r) + 2 ^ (b + 1) ≡ 2 ^ b + r + 2 ^ 32
unfolding extend_loop
loop_sign left b r small e = rw (one_bit b (omega arith)) (
    ap (λ (t : ℕ). extend_loop left (b + 1) 1 (bit_or (2 ^ b + r) t) + 2 ^ (b + 1)) (omega arith)
    ∙ ap (λ t. extend_loop left (b + 1) 1 t + 2 ^ (b + 1)) (bit_or_top b r small)
    ∙ loop_set left (b + 1) (2 ^ b + r) (omega (arith, pow_next b)) (omega arith))

bit_clear : (x b : ℕ) → x < 2 ^ b → x / 2 ^ b % 2 ≡ 0
bit_clear x b h = rw (div-eq_of_lt h) refl

bit_set : (x b : ℕ) → 2 ^ b ≤ x → x < 2 ^ (b + 1) → x / 2 ^ b % 2 ≡ 1
bit_set x b lo hi =
    rw (div-eq_of_lt-le {k = 1} (2 ^ b) {m = x} (omega arith) (omega (arith, pow_next b))) refl

-- For a sign bit below 32 and a word that has no bit above it, the loop of sign_extend32 gives the
-- word of 32 bits with the same value in two's complement.
pub sign_extend32-extend :
    (x b : ℕ) → b < 32 → x < 2 ^ (b + 1) → sign_extend32 x b ≡ extend (b + 1) x
unfolding sign_extend32
sign_extend32-extend x b hb hx = elim (dec_lt x (2 ^ b)) [
  | yes lo ↦ rw (bit_clear x b lo, loop_clear) (ground (arith, below))
  | no hi ↦ rw (bit_set x b (omega arith) hx) (ground (arith, below, grown))
]
  where
    below : 2 ^ (b + 1 - 1) ≡ 2 ^ b
    below = ap (λ (k : ℕ). 2 ^ k) (omega arith)

    grown : 2 ^ b ≤ x → extend_loop (32 - b) b 1 x + 2 ^ (b + 1) ≡ x + 2 ^ 32
    grown h =
        let rounds : 32 - b ≡ suc (31 - b) = omega arith in
        let split : x ≡ 2 ^ b + (x - 2 ^ b) = omega arith in
        ap (λ (t : ℕ). extend_loop t b 1 x + 2 ^ (b + 1)) rounds
        ∙ ap (λ (t : ℕ). extend_loop (suc (31 - b)) b 1 t + 2 ^ (b + 1)) split
        ∙ loop_sign (31 - b) b (x - 2 ^ b) (omega (arith, pow_next b)) (omega arith)
        ∙ omega arith
