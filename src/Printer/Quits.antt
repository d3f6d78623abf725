-- ===== src/Printer/Quits.antt =====
-- Ways to build a visitor of src/prettyprint.c that ends.
use ifj.Prelude.{Bool, true, false, List, [], ◌∷◌, Bytes, Fault}
use ifj.Printer.Output.{
  Chunk, lit, str, Printer, M, ◌>>◌, skip, crash, print, when, indent, indented, break_outside,
}
use ifj.Prelude.{◌+◌, ◌==◌, IsReal, Anything, Leads, gives, faults, bind-Leads}
use ifj.Printer.Output.{leave}
use ifj.Printer.Visitors.{print_slots}
use ifj.Printer.Brackets.{Every}

-- The visitor returns, or meets a fault of the program.
pub record Quits (m : M) : Type 0 where
  pub quits : (p : Printer) → Leads IsReal Anything (m p)

pub written : (cs : List Chunk) → Quits (print cs)
written cs = record { quits = λ p. gives tt }

pub skipped : Quits skip
skipped = record { quits = λ p. gives tt }

pub spaced : Quits indent
spaced = record { quits = λ p. gives tt }

pub crashed : (e : Fault) → IsReal e → Quits (crash e)
crashed e h = record { quits = λ p. faults h }

infixl 5 ◌>>>◌
pub ◌>>>◌ : {m k : M} → Quits m → Quits k → Quits (m >> k)
◌>>>◌ {m} {k} x y = record { quits = λ p. bind-Leads (m p) k (x.quits p) λ q _. y.quits q }

pub deeper : {m : M} → Quits m → Quits (indented m)
deeper {m} x = record {
  quits =
      λ p. bind-Leads (m (record p { indents = p.indents + 1 })) leave (x.quits _) λ q _. gives tt;
}

pub when-Ends : (b : Bool) {m : M} → Quits m → Quits (when b m)
when-Ends true h = h
when-Ends false h = skipped

pub broken_outside : Quits break_outside
broken_outside = record {
  quits = λ p. (when-Ends (p.indents == 0) (written (lit "\n" ∷ []))).quits p;
}

abbrev pub EndsSlot : Bytes × M → Type 0
EndsSlot e = Quits e.1

pub print_slots-Ends : (ps : List (Bytes × M)) → Every EndsSlot ps → Quits (print_slots ps)
print_slots-Ends [] h = skipped
print_slots-Ends ((slot, m) ∷ ps) h =
    written (lit " " ∷ str slot ∷ lit ": " ∷ []) >>> h.0 >>> print_slots-Ends ps h.1
