-- ===== src/Cache/Memory.antt =====
-- Memory behind a base pointer: what stands at each index, also behind the end of what was allocated.
-- sandbox/sort.h's ELEM is the index.
use hyrule.Prelude.{ℕ, ◌+◌, ◌-◌, ◌≤◌, ◌<◌, ◌≡◌, arith, ◌&&◌}
use hyrule.Prelude.{ltb, leb, ◌==◌, if◌then◌else◌, List, length, get_or}

abbrev pub Array {ℓ} : Type ℓ → Type ℓ
Array A = ℕ → A

-- `a[i] = v`.
unfoldable pub store {ℓ} : {A : Type ℓ} → Array A → ℕ → A → Array A
store a i v j = if j == i then v else a j

-- `memcpy(a + start, bytes, length bytes)`.
unfoldable pub copy_in : Array ℕ → ℕ → List ℕ → Array ℕ
copy_in a start bytes j =
    if leb start j && ltb j (start + length bytes) then get_or bytes (j - start) 0 else a j

pub copy_in_inside :
    (a : Array ℕ) (start i : ℕ) (bytes : List ℕ)
    → i < length bytes
    → copy_in a start bytes (start + i) ≡ get_or bytes i 0
unfolding copy_in
copy_in_inside a start i bytes lt = ground arith

pub copy_in_before :
    (a : Array ℕ) (start j : ℕ) (bytes : List ℕ) → j < start → copy_in a start bytes j ≡ a j
unfolding copy_in
copy_in_before a start j bytes lt = ground arith

pub copy_in_behind :
    (a : Array ℕ) (start j : ℕ) (bytes : List ℕ)
    → start + length bytes ≤ j
    → copy_in a start bytes j ≡ a j
unfolding copy_in
copy_in_behind a start j bytes le = ground arith
