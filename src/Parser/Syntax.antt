-- ===== src/Parser/Syntax.antt =====
-- The grammar of operator expressions that src/parser.c reads, level by level, with the tokens and
-- the tree of each of its derivations.
pub mod Stream
pub mod Kinds
pub mod Operand
pub mod Primary
pub mod Nodes
pub mod Level
pub mod Whole
pub mod Reads
use Prim.Native.String.{String}
use ifj.Prelude.{ℕ, zero, suc, ◌≡◌, Bool, true, false, List, [], ◌∷◌, ◌++◌, some}
use ifj.Token.{
  op_bit_not, op_not, Token, Kind, is_kind, id, int, double, string, lparen, rparen, op_pow,
  op_incr, op_decr, op_mul, op_div, op_mod, op_plus, op_minus, op_bit_shl, op_bit_shr, op_lt,
  op_lte, op_gt, op_gte, op_eq, op_neq, op_bit_and, op_bit_xor, op_bit_or, op_and, op_or,
}
use ifj.Ast.{Node, binary_op_node_new, unary_op_node_new}
use ifj.Parser.Monad.{is_one_of}
use ifj.Parser.Operators.{prefixes}
use ifj.Parser.Expr.{leaf}
use ifj.Parser.Associates.{left_tree}

-- The operators of the levels, from the one that binds most to the one that binds least.
abbrev pub levels : List (List Kind)
levels =
    (op_mul ∷ op_div ∷ op_mod ∷ [])
    ∷ (op_plus ∷ op_minus ∷ [])
    ∷ (op_bit_shl ∷ op_bit_shr ∷ [])
    ∷ (op_lt ∷ op_lte ∷ op_gt ∷ op_gte ∷ [])
    ∷ (op_eq ∷ op_neq ∷ [])
    ∷ (op_bit_and ∷ [])
    ∷ (op_bit_xor ∷ [])
    ∷ (op_bit_or ∷ [])
    ∷ (op_and ∷ [])
    ∷ (op_or ∷ [])
    ∷ []

abbrev pub nth_ops : List (List Kind) → ℕ → List Kind
nth_ops [] n = []
nth_ops (ops ∷ rest) zero = ops
nth_ops (ops ∷ rest) (suc n) = nth_ops rest n

abbrev pub level_ops : ℕ → List Kind
level_ops n = nth_ops levels n

abbrev pub atoms : List Kind
atoms = id ∷ int ∷ double ∷ string ∷ []

-- A token and the number of its line.
abbrev pub Located : Type 0
Located = ℕ × Token

abbrev pub located_kind : Located → Kind
located_kind t = t.1.kind

-- An expression of level zero is a name or a literal, a prefix operator with another, or any
-- expression in parentheses. One of the next level is a chain of them, with operators of the
-- level between.
mutual
  pub data Expr : ℕ → Type 0 where
    atom : (t : Located) → is_one_of atoms (located_kind t) ≡ true → Expr 0
    prefix : (op : Located) → is_one_of prefixes (located_kind op) ≡ true → Expr 0 → Expr 0
    parens :
        (l r : Located)
        → is_kind (located_kind l) lparen ≡ true
        → is_kind (located_kind r) rparen ≡ true
        → Expr 10
        → Expr 0
    chain : {n : ℕ} → Expr n → Tail n → Expr (suc n)

  pub data Tail : ℕ → Type 0 where
    done : {n : ℕ} → Tail n
    more :
        {n : ℕ} (op : Located)
        → is_one_of (level_ops n) (located_kind op) ≡ true
        → Expr n
        → Tail n
        → Tail n

unfoldable mutual
  pub tokens_of : {n : ℕ} → Expr n → List Located
  tokens_of (atom t h) = t ∷ []
  tokens_of (prefix op h e) = op ∷ tokens_of e
  tokens_of (parens l r h k e) = l ∷ (tokens_of e ++ r ∷ [])
  tokens_of (chain e tail) = tokens_of e ++ tokens_behind tail

  pub tokens_behind : {n : ℕ} → Tail n → List Located
  tokens_behind done = []
  tokens_behind (more op h e tail) = op ∷ (tokens_of e ++ tokens_behind tail)

-- The line of the first token.
unfoldable pub first_line : {n : ℕ} → Expr n → ℕ
first_line (atom t h) = t.0
first_line (prefix op h e) = op.0
first_line (parens l r h k e) = l.0
first_line (chain e tail) = first_line e

unfoldable mutual
  pub tree_of : {n : ℕ} → Expr n → Node
  tree_of (atom t h) = leaf t.1 t.0
  tree_of (prefix op h e) = unary_op_node_new (located_kind op) (tree_of e) false op.0
  tree_of (parens l r h k e) = tree_of e
  tree_of (chain e tail) = left_tree (first_line e) (tree_of e) (operands_of tail)

  -- The operators of a chain with the trees of their right operands.
  pub operands_of : {n : ℕ} → Tail n → List (Kind × Node)
  operands_of done = []
  operands_of (more op h e tail) = (located_kind op, tree_of e) ∷ operands_of tail

-- A token that does not go on an expression of a level.
unfoldable pub Stops : ℕ → Kind → Type 0
Stops zero k = is_one_of (lparen ∷ op_pow ∷ op_incr ∷ op_decr ∷ []) k ≡ false
Stops (suc n) k = (is_one_of (level_ops n) k ≡ false) × Stops n k
