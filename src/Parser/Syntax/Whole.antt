-- ===== src/Parser/Syntax/Whole.antt =====
-- The functions of src/parser.c above the levels of operators, at an expression that nothing goes
-- on.
use Prim.Native.String.{String}
use ifj.Prelude.{ℕ, zero, suc, ◌≡◌, refl, true, false, List, [], ◌∷◌}
use ifj.Token.{is_kind, op_lnot, dim_kw, op_fork}
use ifj.Ast.{Node}
use ifj.Parser.Source.{Source}
use ifj.Parser.Monad.{Parser, value, M, kind, accept}
use ifj.Parser.Operators.{
  binary_level, unary_expr, multiplicative_expr, additive_expr, shift_expr, relational_expr,
  equality_expr, bitwise_and_expr, bitwise_xor_expr, bitwise_or_expr, logical_and_expr,
  logical_or_expr, assignment_expr, not_expr,
}
use ifj.Parser.Syntax.{level_ops}
use ifj.Parser.Syntax.Kinds.{starts, starts-not, starts-dim, Follows}
use ifj.Parser.Syntax.Operand.{behind, otherwise, accept-other}

-- The contexts of the levels.
abbrev pub contexts : List String
contexts =
    "multiplicative operation" ∷ "additive operation" ∷ "shift operation" ∷ "relational operation"
    ∷ "equality operation" ∷ "& operation" ∷ "^ operation" ∷ "or operation" ∷ "&& operation"
    ∷ "|| operation" ∷ []

abbrev pub nth_context : List String → ℕ → String
nth_context [] n = ""
nth_context (s ∷ ss) zero = s
nth_context (s ∷ ss) (suc n) = nth_context ss n

module _ ⦃G : Source⦄ (f : ℕ) (expr : M Node) (g : ℕ) where
  -- The function of a level, with the fuel `g` for prefix operators.
  abbrev pub level : ℕ → M Node
  level zero = unary_expr f expr g
  level (suc n) = binary_level f (level_ops n) (nth_context contexts n) (level n)

module _ ⦃G : Source⦄ (f : ℕ) (expr : M Node) where
  pub logical_or_expr-level :
      (p q : Parser) (node : Node)
      → level f expr f 10 p ≡ value node q
      → is_kind (kind q) op_fork ≡ false
      → logical_or_expr f expr p ≡ value node q
  unfolding logical_or_expr multiplicative_expr additive_expr shift_expr relational_expr
      equality_expr bitwise_and_expr bitwise_xor_expr bitwise_or_expr logical_and_expr
  logical_or_expr-level p q node e h =
      behind _ _ e (behind (accept op_fork q) _ (accept-other op_fork q h) refl)

  pub not_expr-level :
      (p q : Parser) (node : Node)
      → starts (kind p) ≡ true
      → level f expr f 10 p ≡ value node q
      → Follows (kind q)
      → not_expr f expr p ≡ value node q
  unfolding not_expr assignment_expr
  not_expr-level p q node s e h =
      behind (accept op_lnot p) _ (accept-other op_lnot p (starts-not _ s)) (
        behind (accept dim_kw p) _ (accept-other dim_kw p (starts-dim _ s)) (
          behind _ _ (logical_or_expr-level p q node e h.1)
            (otherwise _ _ _ q h.2 (otherwise _ _ _ q h.3 refl))))
