-- ===== src/Printer/Output.antt =====
-- What a printer writes: the format strings of src/prettyprint.c, cut at their conversions.
use Prim.Native.String.{String}
use ifj.Prelude.{
  ℕ, zero, suc, ◌+◌, ◌-◌, Bool, List, [], ◌∷◌, ◌++◌, Bytes, ◌==◌, if◌then◌else◌, Fault, Result, ok,
  err, bind,
}
use ifj.Token.{IntValue, Double}

-- A piece of a format string, and the arguments of %s, %d and %f.
pub data Chunk : Type 0 where
  lit : String → Chunk
  str : Bytes → Chunk
  dec : IntValue → Chunk
  real : Double → Chunk

-- The global `indents`, and what is printed so far.
pub record Printer : Type 0 where
  pub indents : ℕ
  pub out : List Chunk

abbrev pub M : Type 0
M = Printer → Result Printer

infixl 5 ◌>>◌
abbrev pub ◌>>◌ : M → M → M
◌>>◌ m k p = bind (m p) k

abbrev pub skip : M
skip p = ok p

abbrev pub crash : Fault → M
crash e p = err e

-- `print_func`
abbrev pub print : List Chunk → M
print cs p = ok (record p { out = p.out ++ cs })

abbrev pub text : String → M
text s = print (lit s ∷ [])

abbrev pub when : Bool → M → M
when b m p = if b then m p else ok p

abbrev pub spaces : ℕ → List Chunk
spaces zero = []
spaces (suc n) = lit "  " ∷ spaces n

-- `INDENT`
abbrev pub indent : M
indent p = print (spaces p.indents) p

-- `++indents; m; --indents;`
abbrev pub enter : M
enter p = ok (record p { indents = p.indents + 1 })

abbrev pub leave : M
leave p = ok (record p { indents = p.indents - 1 })

abbrev pub indented : M → M
indented m = enter >> m >> leave

-- `if (!indents) print_func("\n");`
abbrev pub break_outside : M
break_outside p = when (p.indents == 0) (text "\n") p
