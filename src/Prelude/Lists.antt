-- ===== src/Prelude/Lists.antt =====
-- Lists measured by native numbers, and byte strings.
use Prim.Native.Nat.{ℕ, zero, suc, ◌+◌, ◌≤◌}
use Prim.Native.Char.{code}
use Prim.Native.String.{String}
use mathlib.Core.Path.{◌≡◌, refl, ap, ◌∙◌, sym}
use mathlib.Core.Bool.{Bool, true, false, ◌&&◌}
use mathlib.Core.List.{List, [], ◌∷◌, ◌++◌, append_assoc}
use mathlib.Core.Option.{Option, none, some}
use native.Mathlib.Omega.{arith}
use ifj.Prelude.Tests.{◌==◌, ==_iff, both_true}

abbrev pub Bytes : Type 0
Bytes = List ℕ

module _ {ℓ} {A : Type ℓ} where
  abbrev pub length : List A → ℕ
  length [] = 0
  length (x ∷ xs) = suc (length xs)

  pub length-append : (xs ys : List A) → length (xs ++ ys) ≡ length xs + length ys
  length-append [] ys = omega arith
  length-append (x ∷ xs) ys = omega (arith, length-append xs ys)

  abbrev pub get_elem? : List A → ℕ → Option A
  get_elem? [] n = none
  get_elem? (x ∷ xs) zero = some x
  get_elem? (x ∷ xs) (suc n) = get_elem? xs n

  pub get_elem?-last : (xs : List A) (x : A) → get_elem? (xs ++ x ∷ []) (length xs) ≡ some x
  get_elem?-last [] x = refl
  get_elem?-last (y ∷ ys) x = get_elem?-last ys x

  pub get_elem?-append :
      (xs ys : List A) (n : ℕ) {x : A} → get_elem? xs n ≡ some x → get_elem? (xs ++ ys) n ≡ some x
  get_elem?-append [] ys n h = cc
  get_elem?-append (y ∷ xs) ys zero h = h
  get_elem?-append (y ∷ xs) ys (suc n) h = get_elem?-append xs ys n h

  -- Every element passes the test.
  abbrev pub All : (A → Bool) → List A → Type 0
  All p [] = Unit
  All p (x ∷ xs) = (p x ≡ true) × All p xs

-- The code points of a text, its bytes where it is ASCII.
abbrev pub codes : String → Bytes
codes String.[] = []
codes (String.◌∷◌ c s) = code c ∷ codes s

-- `strcmp(a, b) == 0`
unfoldable pub same : Bytes → Bytes → Bool
same [] [] = true
same (x ∷ xs) (y ∷ ys) = x == y && same xs ys
same _ _ = false

pub same_refl : (xs : Bytes) → same xs xs ≡ true
unfolding same
same_refl [] = refl
same_refl (x ∷ xs) = ground (arith, same_refl xs)

pub same_eq : (xs ys : Bytes) → same xs ys ≡ true → xs ≡ ys
unfolding same
same_eq [] [] h = refl
same_eq [] (y ∷ ys) h = cc
same_eq (x ∷ xs) [] h = cc
same_eq (x ∷ xs) (y ∷ ys) h =
    let a = both_true (x == y) (same xs ys) h in
    let e = (==_iff x y).0 a.0 in let k = same_eq xs ys a.1 in cc

-- `ys` is what is left of `xs` behind a piece that was read.
pub record Leaves (xs ys : Bytes) : Type 0 where
  pub taken : Bytes
  pub splits : xs ≡ taken ++ ys

pub Leaves-refl : (xs : Bytes) → Leaves xs xs
Leaves-refl xs = record { taken = []; splits = refl }

pub Leaves-cons : (x : ℕ) {xs ys : Bytes} → Leaves xs ys → Leaves (x ∷ xs) ys
Leaves-cons x l = record { taken = x ∷ l.taken; splits = ap (◌∷◌ x) l.splits }

pub Leaves-trans : {xs ys zs : Bytes} → Leaves xs ys → Leaves ys zs → Leaves xs zs
Leaves-trans l m = record {
  taken = l.taken ++ m.taken;
  splits = l.splits ∙ ap (λ t. l.taken ++ t) m.splits ∙ sym (append_assoc l.taken m.taken _);
}

pub length-Leaves : {xs ys : Bytes} → Leaves xs ys → length ys ≤ length xs
length-Leaves {ys = ys} l = omega (arith, ap length l.splits, length-append l.taken ys)
