-- ===== src/Prelude/Chain.antt =====
-- Chains of optional results.
use mathlib.Core.Path.{◌≡◌, refl}
use mathlib.Core.Option.{Option, none, some}

module _ {ℓ κ} {A : Type ℓ} {B : Type κ} where
  abbrev pub and_then : Option A → (A → Option B) → Option B
  and_then none f = none
  and_then (some a) f = f a

pub and_then-and_then {ℓ} :
    {A : Type ℓ} (o : Option A) (f g k : A → Option A)
    → ((a : A) → k a ≡ and_then (f a) g)
    → and_then o k ≡ and_then (and_then o f) g
and_then-and_then none f g k h = refl
and_then-and_then (some a) f g k h = h a
