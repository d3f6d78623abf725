-- ===== src/Lexer/Advance.antt =====
-- How far the parts of the scanner read: what they leave is a rest of what they were given, so
-- `undo` never puts back anything but the bytes that were read.
pub mod Literals
pub mod Rounds
use ifj.Prelude.{ℕ, ◌+◌, ◌≤◌, ◌≡◌, Bool, true, ◌∷◌, Bytes, IsReal, Leaves, Leaves-cons, arith}
use ifj.Token.{Token}
use ifj.Lexer.State.{Lexer, Step, again, stop, fault}

-- The step leaves a rest of `xs`, and the line number does not fall; one that goes on keeps
-- the token.
abbrev pub Advances : ℕ → Token → Bytes → Step → Type 0
Advances line tok xs (again l) = Leaves xs l.rest × (line ≤ l.lineno) × (l.tok ≡ tok)
Advances line tok xs (stop b l) = Leaves xs l.rest × (line ≤ l.lineno)
Advances line tok xs (fault e) = IsReal e

-- So does a step that returns a token or faults, and does not go on by itself.
abbrev pub Returns : ℕ → Bytes → Step → Type 0
Returns line xs (again l) = ⊥
Returns line xs (stop b l) = Leaves xs l.rest × (line ≤ l.lineno)
Returns line xs (fault e) = IsReal e

pub Returns-Advances :
    (line : ℕ) (tok : Token) (xs : Bytes) (s : Step) → Returns line xs s → Advances line tok xs s
Returns-Advances line tok xs (again l) h = absurd h
Returns-Advances line tok xs (stop b l) h = h
Returns-Advances line tok xs (fault e) h = h

pub Returns-cons :
    (line : ℕ) (c : ℕ) (xs : Bytes) (s : Step) → Returns line xs s → Returns line (c ∷ xs) s
Returns-cons line c xs (again l) h = h
Returns-cons line c xs (stop b l) h = (Leaves-cons c h.0, h.1)
Returns-cons line c xs (fault e) h = h

pub Advances-cons :
    (line : ℕ) (tok : Token) (c : ℕ) (xs : Bytes) (s : Step)
    → Advances line tok xs s
    → Advances line tok (c ∷ xs) s
Advances-cons line tok c xs (again l) h = (Leaves-cons c h.0, h.1, h.2)
Advances-cons line tok c xs (stop b l) h = (Leaves-cons c h.0, h.1)
Advances-cons line tok c xs (fault e) h = h

pub Returns-line :
    (line line' : ℕ) (xs : Bytes) (s : Step) → line ≤ line' → Returns line' xs s → Returns line xs s
Returns-line line line' xs (again l) p h = h
Returns-line line line' xs (stop b l) p h = (h.0, omega arith)
Returns-line line line' xs (fault e) p h = h
