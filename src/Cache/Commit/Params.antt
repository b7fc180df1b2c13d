-- ===== src/Cache/Commit/Params.antt =====
-- The words that `COMMIT_TRANSLATION` writes behind a block's code.
use hyrule.Prelude.{ℕ, zero, suc, ◌+◌, ◌*◌, ◌^◌, ◌<◌, ◌≡◌, refl, ap, ◌∙◌}
use hyrule.Prelude.{arith, List, [], ◌∷◌, length}
use hyrule.Prelude.{get_or}
use hyrule.Cache.Memory.{Array, copy_in, copy_in_before}
use hyrule.Cache.Commit.{bytes32, write_params}

-- The word of four bytes.
abbrev pub word_at : Array ℕ → ℕ → ℕ
word_at a i = a i + 2 ^ 8 * a (i + 1) + 2 ^ 16 * a (i + 2) + 2 ^ 24 * a (i + 3)

pub write_params-before :
    (params : List ℕ) (a : Array ℕ) (ptr i : ℕ) → i < ptr → write_params a ptr params i ≡ a i
unfolding write_params
write_params-before [] a ptr i lt = refl
write_params-before (p ∷ params) a ptr i lt =
    write_params-before params (copy_in a ptr (bytes32 p)) (ptr + 4) i (omega arith)
    ∙ copy_in_before a ptr i (bytes32 p) lt

word_of_bytes : (a : Array ℕ) (ptr p : ℕ) → p < 2 ^ 32 → word_at (copy_in a ptr (bytes32 p)) ptr ≡ p
unfolding copy_in
word_of_bytes a ptr p lt = ground arith

same_word :
    (a b : Array ℕ) (ptr : ℕ) → ((i : ℕ) → i < ptr + 4 → a i ≡ b i) → word_at a ptr ≡ word_at b ptr
same_word a b ptr same = omega (
  arith,
  same ptr (omega arith),
  same (ptr + 1) (omega arith),
  same (ptr + 2) (omega arith),
  same (ptr + 3) (omega arith),
)

pub write_params-word :
    (params : List ℕ) (a : Array ℕ) (ptr j : ℕ)
    → ((k : ℕ) → get_or params k 0 < 2 ^ 32)
    → j < length params
    → word_at (write_params a ptr params) (ptr + 4 * j) ≡ get_or params j 0
unfolding write_params
write_params-word [] a ptr j words lt = absurd (omega arith)
write_params-word (p ∷ params) a ptr zero words lt =
    let here : ptr + 4 * 0 ≡ ptr = omega arith in
    ap (word_at (write_params (copy_in a ptr (bytes32 p)) (ptr + 4) params)) here
    ∙ same_word (write_params (copy_in a ptr (bytes32 p)) (ptr + 4) params)
        (copy_in a ptr (bytes32 p)) ptr
        (λ i below. write_params-before params (copy_in a ptr (bytes32 p)) (ptr + 4) i below)
    ∙ word_of_bytes a ptr p (words 0)
write_params-word (p ∷ params) a ptr (suc j) words lt =
    let further : ptr + 4 * suc j ≡ ptr + 4 + 4 * j = omega arith in
    ap (word_at (write_params (copy_in a ptr (bytes32 p)) (ptr + 4) params)) further
    ∙ write_params-word params (copy_in a ptr (bytes32 p)) (ptr + 4) j (λ k. words (suc k))
        (omega arith)
