-- ===== src/Parser/Syntax/Nodes.antt =====
-- What the tokens of an expression begin with, and that its tree is a node.
use ifj.Prelude.{ℕ, ◌≤◌, ◌≡◌, refl, arith, true, List, [], ◌∷◌, length, length-append}
use ifj.Token.{Token, Kind}
use ifj.Ast.{Node, is_node}
use ifj.Parser.Source.{Source}
use ifj.Parser.Expr.{leaf}
use ifj.Parser.Associates.{left_tree}
use ifj.Parser.Syntax.{
  Expr, Tail, atom, prefix, parens, chain, done, more, tokens_of, tokens_behind, tree_of,
  operands_of, first_line,
}
use ifj.Parser.Syntax.Kinds.{starts, starts_atom, starts_prefix, starts_paren}
use ifj.Parser.Syntax.Stream.{Streams, Streams-append}

pub leaf-is_node : (t : Token) (line : ℕ) → is_node (leaf t line) ≡ true
leaf-is_node t line = ground arith

left_tree-is_node :
    (line : ℕ) (node : Node) (rest : List (Kind × Node))
    → is_node node ≡ true
    → is_node (left_tree line node rest) ≡ true
left_tree-is_node line node [] h = h
left_tree-is_node line node ((op, right) ∷ rest) h = left_tree-is_node line _ rest refl

pub tree_of-is_node : {n : ℕ} (e : Expr n) → is_node (tree_of e) ≡ true
unfolding tree_of
tree_of-is_node (atom t h) = leaf-is_node t.1 t.0
tree_of-is_node (prefix op h e) = refl
tree_of-is_node (parens l r h k e) = tree_of-is_node e
tree_of-is_node (chain e tail) =
    left_tree-is_node (first_line e) (tree_of e) (operands_of tail) (tree_of-is_node e)

pub length-operands_of :
    {n : ℕ} (tail : Tail n) → length (operands_of tail) ≤ length (tokens_behind tail)
unfolding operands_of tokens_behind
length-operands_of done = omega arith
length-operands_of (more op h e tail) =
    omega (arith, length-operands_of tail, length-append (tokens_of e) (tokens_behind tail))

module _ ⦃G : Source⦄ where
  open G use {Scanner, tok, line}

  pub first_line-Streams :
      {n : ℕ} (e : Expr n) (s t : Scanner) → Streams s (tokens_of e) t → line s ≡ first_line e
  unfolding Streams tokens_of first_line
  first_line-Streams (atom a h) s t k = k.0
  first_line-Streams (prefix op h e) s t k = k.0
  first_line-Streams (parens l r h i e) s t k = k.0
  first_line-Streams (chain e tail) s t k =
      let m = Streams-append (tokens_of e) (tokens_behind tail) s t k in
      first_line-Streams e s m.0 m.1

  pub starts-Streams :
      {n : ℕ} (e : Expr n) (s t : Scanner) → Streams s (tokens_of e) t → starts (tok s).kind ≡ true
  unfolding Streams tokens_of
  starts-Streams (atom a h) s t k = rw (k.1) (starts_atom _ h)
  starts-Streams (prefix op h e) s t k = rw (k.1) (starts_prefix _ h)
  starts-Streams (parens l r h i e) s t k = rw (k.1) (starts_paren _ h)
  starts-Streams (chain e tail) s t k =
      let m = Streams-append (tokens_of e) (tokens_behind tail) s t k in starts-Streams e s m.0 m.1
