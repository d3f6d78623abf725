-- ===== src/Driver/Expressions.antt =====
-- An operator expression through the parser and the printer.
use ifj.Prelude.{ℕ, ◌<◌, Bool, true, false, List, [], ◌∷◌, Bytes, if◌then◌else◌}
use ifj.Token.{Kind, Token, is_kind, id, int, double}
use ifj.Ast.{Node}
use ifj.Parser.Source.{Source}
use ifj.Parser.Monad.{Parser}
use ifj.Parser.Expr.{leaf}
use ifj.Parser.Grammar.{expr}
use ifj.Parser.Associates.{left_tree}
use ifj.Parser.Syntax.{
  Expr, Tail, atom, prefix, parens, chain, done, more, tokens_of, tree_of, operands_of, first_line,
}
use ifj.Parser.Syntax.Stream.{Streams}
use ifj.Parser.Syntax.Kinds.{Follows}
use ifj.Parser.Syntax.Level.{Parsed}
use ifj.Parser.Syntax.Reads.{expr-Parsed}
use ifj.Printer.Output.{M}
use ifj.Printer.Visit.{prettyprint}
use ifj.Printer.Balance.{Prints}
use ifj.Printer.Printable.{IsPrintable}
use ifj.Printer.Brackets.{Every}
use ifj.Printer.Prints.{prettyprint-Prints}

if-IsPrintable :
    (b : Bool) (x y : Node) → IsPrintable x → IsPrintable y → IsPrintable (if b then x else y)
if-IsPrintable true x y h k = h
if-IsPrintable false x y h k = k

leaf-IsPrintable : (t : Token) (line : ℕ) → IsPrintable (leaf t line)
unfolding IsPrintable
leaf-IsPrintable t line =
    if-IsPrintable (is_kind t.kind id) _ _ tt (
      if-IsPrintable (is_kind t.kind int) _ _ tt (if-IsPrintable (is_kind t.kind double) _ _ tt tt))

abbrev RightsPrintable : List (Kind × Node) → Type 0
RightsPrintable [] = Unit
RightsPrintable ((op, right) ∷ rest) = IsPrintable right × RightsPrintable rest

left_tree-IsPrintable :
    (line : ℕ) (node : Node) (rest : List (Kind × Node))
    → IsPrintable node
    → RightsPrintable rest
    → IsPrintable (left_tree line node rest)
unfolding IsPrintable
left_tree-IsPrintable line node [] h k = h
left_tree-IsPrintable line node ((op, right) ∷ rest) h k =
    left_tree-IsPrintable line _ rest (h, k.0) k.1

mutual
  unfolding tree_of operands_of IsPrintable

  pub tree_of-IsPrintable : {n : ℕ} (e : Expr n) → IsPrintable (tree_of e)
  tree_of-IsPrintable (atom t h) = leaf-IsPrintable t.1 t.0
  tree_of-IsPrintable (prefix op h e) = tree_of-IsPrintable e
  tree_of-IsPrintable (parens l r h k e) = tree_of-IsPrintable e
  tree_of-IsPrintable (chain e tail) =
      left_tree-IsPrintable (first_line e) (tree_of e) (operands_of tail) (tree_of-IsPrintable e)
        (operands_of-RightsPrintable tail)

  operands_of-RightsPrintable : {n : ℕ} (tail : Tail n) → RightsPrintable (operands_of tail)
  operands_of-RightsPrintable done = tt
  operands_of-RightsPrintable (more op h e tail) =
      (tree_of-IsPrintable e, operands_of-RightsPrintable tail)

module _ (slots : (A : Type 0) → List (Bytes × A) → List (Bytes × A))
    (slots_keep : (P : Bytes × M → Type 0) (entries : List (Bytes × M))
      → Every P entries
      → Every P (slots M entries)) where
  -- Where the scanner shows the tokens of an expression of the grammar, and then a token that goes
  -- on none, the parser returns a tree that the printer prints: in brackets that are all closed,
  -- and with the indentation as it was.
  pub expr-Prints :
      ⦃G : Source⦄ (e : Expr 10) (fuel : ℕ) (p : Parser) (t : G.Scanner)
      → Streams p.lex (tokens_of e) t
      → Follows (G.tok t).kind
      → G.left p.lex < fuel
      → (node : Node) × Parsed (expr fuel p) p node t × Prints 0 0 (prettyprint slots node)
  expr-Prints e fuel p t s k a = (
    tree_of e,
    expr-Parsed e fuel p t s k a,
    prettyprint-Prints slots slots_keep (tree_of e) (tree_of-IsPrintable e),
  )
