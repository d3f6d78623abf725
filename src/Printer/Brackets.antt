-- ===== src/Printer/Brackets.antt =====
-- Pieces of the output of src/prettyprint.c that open and close brackets.
use Prim.Native.String.{String}
use ifj.Prelude.{
  ℕ, ◌+◌, ◌≡◌, refl, ap, ◌∙◌, arith, Bool, true, false, List, [], ◌∷◌, Bytes, codes, some,
  if◌then◌else◌,
}
use ifj.Token.{Kind, spelling}
use ifj.Printer.Output.{Chunk, lit, str, M, print, text}
use ifj.Printer.Visitors.{print_slots}
use ifj.Printer.Balance.{brackets, Prints, printed, ◌>>>◌, skipped}

-- Pieces of format strings that open and close as many brackets, and one that opens or closes
-- one bracket more.
pub level : {a : ℕ} (cs : List Chunk) → ((d : ℕ) → brackets d cs ≡ some d) → Prints a a (print cs)
level {a} cs h = printed cs λ k. h (k + a)

pub opening :
    (a : ℕ) (cs : List Chunk)
    → ((d : ℕ) → brackets d cs ≡ some (d + 1))
    → Prints a (a + 1) (print cs)
opening a cs h = printed cs λ k. h (k + a) ∙ ap some (omega arith)

pub close : (a : ℕ) → Prints (a + 1) a (text ")")
unfolding brackets
close a = printed _ λ k. ground arith

-- A node by itself, in one pair of brackets.
pub leaf-Prints :
    (s : String) (c : Chunk) (t : String)
    → ((d : ℕ) → brackets d (lit s ∷ c ∷ lit t ∷ []) ≡ some d)
    → Prints 0 0 (print (lit s ∷ c ∷ lit t ∷ []))
leaf-Prints s c t h = level _ h

pub opening_op :
    (let_op : Bool) (op : Kind)
    → Prints 0 1
        (print (lit (if let_op then "(let " else "(") ∷ str (codes (spelling op)) ∷ lit " " ∷ []))
unfolding brackets
opening_op true op = opening 0 _ λ d. refl
opening_op false op = opening 0 _ λ d. refl

abbrev pub Every {ℓ} : {A : Type ℓ} → (A → Type 0) → List A → Type 0
Every P [] = Unit
Every P (x ∷ xs) = P x × Every P xs

abbrev pub PrintsSlot : Bytes × M → Type 0
PrintsSlot e = Prints 0 0 e.1

pub print_slots-Prints : (ps : List (Bytes × M)) → Every PrintsSlot ps → Prints 0 0 (print_slots ps)
unfolding brackets
print_slots-Prints [] h = skipped
print_slots-Prints ((slot, m) ∷ ps) h = level _ (λ d. refl) >>> h.0 >>> print_slots-Prints ps h.1
