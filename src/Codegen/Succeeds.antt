-- ===== src/Codegen/Succeeds.antt =====
-- When the steps of src/codegen.c succeed: each part of a visitor by the parts that it has.
pub mod Operators
pub mod Statements
pub mod Trees
use ifj.Prelude.{List, ℕ, ◌+◌, ◌≡◌, refl, ◌∙◌, ap, Bool, true, false, if◌then◌else◌, ok, bind}
use Prim.Native.String.{String}
use ifj.Codegen.Output.{Format, Piece}
use ifj.Codegen.State.{Gen, M, ◌>>◌, skip, modify, print, text, print_num, test}

pub record Succeeds (m : M) : Type 0 where
  pub succeeds : (g : Gen) → (h : Gen) × (m g ≡ ok h)

pub skipped : Succeeds skip
skipped = record { succeeds = λ g. (g, refl) }

pub changed : (f : Gen → Gen) → Succeeds (modify f)
changed f = record { succeeds = λ g. (f g, refl) }

pub printed : (ps : List Piece) → Succeeds (print ps)
printed ps = record { succeeds = λ g. (_, refl) }

pub texted : (s : String) → Succeeds (text s)
texted s = printed _

pub counted : (f : Format) (n : Gen → ℕ) → Succeeds (print_num f n)
counted f n = record { succeeds = λ g. (_, refl) }

infixl 5 ◌>>>◌
pub ◌>>>◌ : {m k : M} → Succeeds m → Succeeds k → Succeeds (m >> k)
◌>>>◌ {m} {k} x y = record {
  succeeds =
      λ g. let (h, e) = x.succeeds g in let (i, d) = y.succeeds h in (i, ap (λ r. bind r k) e ∙ d);
}

pub tested : (b : Gen → Bool) {x y : M} → Succeeds x → Succeeds y → Succeeds (test b x y)
tested b {x} {y} h k = record { succeeds = λ g. by_test (b g) (h.succeeds g) (k.succeeds g) }
  where
    by_test :
        {g : Gen} (c : Bool)
        → (i : Gen) × (x g ≡ ok i)
        → (i : Gen) × (y g ≡ ok i)
        → (i : Gen) × ((if c then x g else y g) ≡ ok i)
    by_test true p q = p
    by_test false p q = q

pub chosen :
    (b : Bool) {x y : M}
    → (b ≡ true → Succeeds x)
    → (b ≡ false → Succeeds y)
    → Succeeds (if b then x else y)
chosen true h k = h refl
chosen false h k = k refl

pub either : (b : Bool) {x y : M} → Succeeds x → Succeeds y → Succeeds (if b then x else y)
either b h k = chosen b (λ e. h) (λ e. k)
