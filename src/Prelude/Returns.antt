-- ===== src/Prelude/Returns.antt =====
-- What a computation that may fail or run out of fuel returns.
use mathlib.Core.Option.{Option, none, some}

-- It has returned, with a result of this kind.
abbrev pub Returns : {R : Type 0} → Option R → (R → Type 0) → Type 0
Returns none P = ⊥
Returns (some r) P = P r

pub Returns-map :
    {R : Type 0} {P Q : R → Type 0} (o : Option R)
    → Returns o P
    → ((r : R) → P r → Q r)
    → Returns o Q
Returns-map none bad f = absurd bad
Returns-map (some r) p f = f r p

pub Returns-both :
    {R : Type 0} (P Q : R → Type 0) (o : Option R)
    → Returns o P
    → Returns o Q
    → Returns o (λ r. P r × Q r)
Returns-both P Q none bad q = bad
Returns-both P Q (some r) p q = (p, q)

-- A computation that goes on with the result of another.
pub Returns-then :
    {R S : Type 0} (P : R → Type 0) (Q : S → Type 0) (o : Option S) (f : S → Option R)
    → Returns o Q
    → ((s : S) → Q s → Returns (f s) P)
    → Returns (elim o [ none ↦ none | some s ↦ f s ]) P
Returns-then P Q none f bad rest = absurd bad
Returns-then P Q (some s) f q rest = rest s q
