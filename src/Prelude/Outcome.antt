-- ===== src/Prelude/Outcome.antt =====
-- Results that may be a fault: where the C program has undefined behaviour, or where the
-- model's own fuel is used up.
use mathlib.Core.Path.{◌≡◌, refl}

-- `overrun`: a read behind the terminating zero of the source. `overflow`: a write behind
-- the end of a fixed buffer. `null_pointer`: an access through NULL. `bad_access`: an index
-- outside an allocated array. `div_zero`: an integer division by zero.
-- `failed_assert`: an assertion that fails. `no_fuel`: the model
-- stopped, which has no counterpart in the program.
pub data Fault : Type 0 where
  overrun overflow null_pointer bad_access div_zero failed_assert no_fuel : Fault

pub data Result {ℓ} (A : Type ℓ) : Type ℓ where
  ok : A → Result A
  err : Fault → Result A

module _ {ℓ κ} {A : Type ℓ} {B : Type κ} where
  abbrev pub bind : Result A → (A → Result B) → Result B
  bind (ok a) f = f a
  bind (err e) f = err e

  pub bind-eq-ok :
      (m : Result A) (f : A → Result B) {b : B}
      → bind m f ≡ ok b
      → (a : A) × (m ≡ ok a) × (f a ≡ ok b)
  bind-eq-ok (ok a) f h = (a, refl, h)
  bind-eq-ok (err e) f h = cc

-- A fault of the program, and not the end of the model's fuel.
abbrev pub IsReal : Fault → Type 0
IsReal no_fuel = ⊥
IsReal overrun = Unit
IsReal overflow = Unit
IsReal null_pointer = Unit
IsReal bad_access = Unit
IsReal div_zero = Unit
IsReal failed_assert = Unit

-- The fuel was enough: the run ended, by a value or by a fault of the program.
abbrev pub Ends {ℓ} : {A : Type ℓ} → Result A → Type 0
Ends (ok a) = Unit
Ends (err e) = IsReal e

-- A computation leads to a result with `P`, or to a fault with `E`.
pub data Leads {ℓ} {A : Type ℓ} (E : Fault → Type 0) (P : A → Type 0) : Result A → Type ℓ where
  gives : {a : A} → P a → Leads E P (ok a)
  faults : {e : Fault} → E e → Leads E P (err e)

pub bind-Leads {ℓ κ} :
    {A : Type ℓ} {B : Type κ} {E : Fault → Type 0} {P : A → Type 0} {Q : B → Type 0} (r : Result A)
    (f : A → Result B)
    → Leads E P r
    → ((a : A) → P a → Leads E Q (f a))
    → Leads E Q (bind r f)
bind-Leads _ f (gives {a} h) k = k a h
bind-Leads _ f (faults h) k = faults h

pub Leads-weaken {ℓ} :
    {A : Type ℓ} {E : Fault → Type 0} {P Q : A → Type 0} {r : Result A}
    → ((a : A) → P a → Q a)
    → Leads E P r
    → Leads E Q r
Leads-weaken k (gives {a} h) = gives (k a h)
Leads-weaken k (faults h) = faults h

abbrev pub Anything {ℓ} : {A : Type ℓ} → A → Type 0
Anything a = Unit
