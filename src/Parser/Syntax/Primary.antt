-- ===== src/Parser/Syntax/Primary.antt =====
-- `primary_expr` of src/parser.c at a token that is an expression by itself, and at a
-- parenthesis; `unary_expr` at a prefix operator.
use ifj.Prelude.{ℕ, suc, ◌≡◌, refl, ap, arith, Bool, true, false}
use ifj.Token.{Kind, ordinal, is_kind, is_one_of, lparen, rparen, lbrack, lbrace}
use ifj.Ast.{Node, unary_op_node_new}
use ifj.Parser.Source.{Source}
use ifj.Parser.Monad.{Parser, Run, value, M, kind, accept, next, stored}
use ifj.Parser.Expr.{primary_expr, paren_expr, leaf}
use ifj.Parser.Operators.{prefixes, unary_expr}
use ifj.Parser.Syntax.{atoms}
use ifj.Parser.Syntax.Operand.{behind, otherwise}

no_atom : (k : Kind) → is_kind k lparen ≡ true → is_one_of atoms k ≡ false
unfolding ordinal
no_atom k h = ground arith

no_lbrack : (k : Kind) → is_kind k lparen ≡ true → is_kind k lbrack ≡ false
unfolding ordinal
no_lbrack k h = ground arith

no_lbrace : (k : Kind) → is_kind k lparen ≡ true → is_kind k lbrace ≡ false
unfolding ordinal
no_lbrace k h = ground arith

module _ ⦃G : Source⦄ where
  open G use {tok, line}

  pub this {ℓ} :
      {A : Type ℓ} (b : Bool) (x y : M A) (p : Parser) {r : Run A}
      → b ≡ true
      → x p ≡ r
      → (elim b as (λ _. M A) [ true ↦ x | false ↦ y ]) p ≡ r
  this true x y p e h = h
  this false x y p e h = cc

  pub accept-next :
      (k : Kind) (p : Parser) {q : Parser}
      → is_kind (kind p) k ≡ true
      → next p ≡ value tt q
      → accept k p ≡ value true q
  unfolding accept
  accept-next k p h n = rw (h, accept, n) refl

  module _ (f : ℕ) (expr : M Node) where
    pub primary_expr-atom :
        (p q : Parser)
        → is_one_of atoms (kind p) ≡ true
        → next p ≡ value tt q
        → primary_expr f expr p ≡ value (leaf (tok p.lex) (line p.lex)) q
    unfolding primary_expr
    primary_expr-atom p q h n = this _ _ _ p h (behind _ _ n refl)

    paren_expr-parens :
        (p q r s : Parser) (node : Node)
        → is_kind (kind p) lparen ≡ true
        → next p ≡ value tt q
        → expr q ≡ value node r
        → is_kind (kind r) rparen ≡ true
        → next r ≡ value tt s
        → paren_expr f expr p ≡ value node s
    unfolding paren_expr
    paren_expr-parens p q r s node h n e k m =
        behind _ _ (behind _ _ (accept-next lparen p h n) refl)
          (behind _ _ e (behind _ _ (behind _ _ (accept-next rparen r k m) refl) refl))

    pub primary_expr-parens :
        (p q r s : Parser) (node : Node)
        → is_kind (kind p) lparen ≡ true
        → next p ≡ value tt q
        → expr q ≡ value node r
        → is_kind (kind r) rparen ≡ true
        → next r ≡ value tt s
        → primary_expr f expr p ≡ value node s
    unfolding primary_expr
    primary_expr-parens p q r s node h n e k m =
        otherwise _ _ _ p (no_atom _ h) (
          rw (no_lbrack (kind p) h, no_lbrace (kind p) h)
            (paren_expr-parens p q r s node h n e k m))

    pub unary_expr-prefix :
        (g : ℕ) (p q r : Parser) (node : Node)
        → is_one_of prefixes (kind p) ≡ true
        → next p ≡ value tt q
        → unary_expr f expr g q ≡ value node r
        → unary_expr f expr (suc g) p ≡ value (unary_op_node_new (kind p) node false (line p.lex)) r
    unfolding unary_expr
    unary_expr-prefix g p q r node h n e =
        this _ _ _ p h (behind _ _ n (behind _ _ (ap stored e) refl))
