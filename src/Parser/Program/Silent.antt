-- ===== src/Parser/Program/Silent.antt =====
-- `expr` of src/parser.c at a token that no expression starts with.
use Prim.Native.String.{String}
use ifj.Prelude.{ℕ, suc, ◌≡◌, refl, ap, arith, false, List}
use ifj.Token.{Kind, ordinal, is_kind, is_one_of, op_lnot, dim_kw, lbrack, lbrace, lparen}
use ifj.Ast.{Node}
use ifj.Parser.Source.{Source}
use ifj.Parser.Monad.{Parser, Run, null, M, kind, accept, bind}
use ifj.Parser.Expr.{primary_expr, paren_expr, slot_access_expr, call_expr}
use ifj.Parser.Operators.{
  prefixes, binary_level, pow_expr, postfix_expr, unary_expr, multiplicative_expr, additive_expr,
  shift_expr, relational_expr, equality_expr, bitwise_and_expr, bitwise_xor_expr, bitwise_or_expr,
  logical_and_expr, logical_or_expr, assignment_expr, not_expr,
}
use ifj.Parser.Grammar.{expr}
use ifj.Parser.Syntax.{atoms}
use ifj.Parser.Syntax.Operand.{behind, otherwise, accept-other}
use ifj.Parser.Program.{starts_any}

module _ (k : Kind) (h : starts_any k ≡ false) where
  silent_atoms : is_one_of atoms k ≡ false
  unfolding ordinal
  silent_atoms = ground arith

  silent_prefixes : is_one_of prefixes k ≡ false
  unfolding ordinal
  silent_prefixes = ground arith

  silent_lparen : is_kind k lparen ≡ false
  unfolding ordinal
  silent_lparen = ground arith

  silent_lbrack : is_kind k lbrack ≡ false
  unfolding ordinal
  silent_lbrack = ground arith

  silent_lbrace : is_kind k lbrace ≡ false
  unfolding ordinal
  silent_lbrace = ground arith

  silent_not : is_kind k op_lnot ≡ false
  unfolding ordinal
  silent_not = ground arith

  silent_dim : is_kind k dim_kw ≡ false
  unfolding ordinal
  silent_dim = ground arith

module _ ⦃G : Source⦄ where
  -- A step that returns NULL ends a chain.
  ends_null {ℓ κ} :
      {A : Type ℓ} {B : Type κ} (m : Run A) (k : A → M B) {q : Parser}
      → m ≡ null q
      → bind m k ≡ null q
  ends_null m k e = ap (λ n. bind n k) e

  module _ (f : ℕ) (expr : M Node) (p : Parser) (h : starts_any (kind p) ≡ false) where
    primary_expr-null : primary_expr f expr p ≡ null p
    unfolding primary_expr paren_expr
    primary_expr-null = otherwise _ _ _ p (silent_atoms _ h) (
        rw (silent_lbrack _ h, silent_lbrace _ h)
          (ends_null _ _ (behind _ _ (accept-other lparen p (silent_lparen _ h)) refl)))

  module _ (f : ℕ) (expr : M Node) (p : Parser) (h : starts_any (kind p) ≡ false) where
    unary_expr-null : unary_expr (suc f) expr (suc f) p ≡ null p
    unfolding unary_expr postfix_expr pow_expr call_expr slot_access_expr
    unary_expr-null =
        otherwise _ _ _ p (silent_prefixes _ h)
          (ends_null _ _ (ends_null _ _ (ends_null _ _ (primary_expr-null (suc f) expr p h))))

    binary_level-null :
        (ops : List Kind) (ctx : String) (operand : M Node)
        → operand p ≡ null p
        → binary_level (suc f) ops ctx operand p ≡ null p
    unfolding binary_level
    binary_level-null ops ctx operand e = ends_null _ _ e

    logical_and_expr-null : logical_and_expr (suc f) expr p ≡ null p
    unfolding multiplicative_expr additive_expr shift_expr relational_expr equality_expr
        bitwise_and_expr bitwise_xor_expr bitwise_or_expr logical_and_expr
    logical_and_expr-null = binary_level-null _ _ _ (
        binary_level-null _ _ _ (
          binary_level-null _ _ _ (
            binary_level-null _ _ _ (
              binary_level-null _ _ _ (
                binary_level-null _ _ _ (
                  binary_level-null _ _ _
                    (binary_level-null _ _ _ (binary_level-null _ _ _ unary_expr-null))))))))

    not_expr-null : not_expr (suc f) expr p ≡ null p
    unfolding not_expr assignment_expr logical_or_expr
    not_expr-null = behind (accept op_lnot p) _ (accept-other op_lnot p (silent_not _ h)) (
        behind (accept dim_kw p) _ (accept-other dim_kw p (silent_dim _ h))
          (ends_null _ _ (ends_null _ _ (binary_level-null _ _ _ logical_and_expr-null))))

  -- `expr` is NULL, with no message and the state as it was.
  pub expr-null : (f : ℕ) (p : Parser) → starts_any (kind p) ≡ false → expr (suc f) p ≡ null p
  unfolding expr
  expr-null f p h = not_expr-null f (expr f) p h
