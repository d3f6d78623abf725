-- ===== src/Parser/Syntax/Operand.antt =====
-- The functions of src/parser.c between `primary_expr` and `unary_expr`, behind an operand that
-- nothing goes on.
use ifj.Prelude.{ℕ, suc, ◌≡◌, refl, ap, ◌∙◌, arith, Bool, true, false, [], ◌∷◌}
use ifj.Token.{Kind, ordinal, is_kind, is_one_of, lparen, op_pow, op_incr, op_decr}
use ifj.Ast.{Node, missing, is_node}
use ifj.Parser.Source.{Source}
use ifj.Parser.Monad.{Parser, Run, value, M, kind, accept, bind}
use ifj.Parser.Expr.{primary_expr, slot_access_expr, call_expr}
use ifj.Parser.Operators.{prefixes, pow_expr, postfix_expr, unary_expr}
use ifj.Parser.Syntax.{Stops}

no_paren : (k : Kind) → Stops 0 k → is_kind k lparen ≡ false
unfolding Stops ordinal
no_paren k h = ground arith

no_power : (k : Kind) → Stops 0 k → is_kind k op_pow ≡ false
unfolding Stops ordinal
no_power k h = ground arith

no_postfix : (k : Kind) → Stops 0 k → is_one_of (op_incr ∷ op_decr ∷ []) k ≡ false
unfolding Stops ordinal
no_postfix k h = ground arith

module _ ⦃G : Source⦄ where
  -- The branch of a test that fails, and the rest of a chain behind a step that returns.
  pub otherwise {ℓ} :
      {A : Type ℓ} (b : Bool) (x y : M A) (p : Parser) {r : Run A}
      → b ≡ false
      → y p ≡ r
      → (elim b as (λ _. M A) [ true ↦ x | false ↦ y ]) p ≡ r
  otherwise true x y p e h = cc
  otherwise false x y p e h = h

  pub behind {ℓ κ} :
      {A : Type ℓ} {B : Type κ} (m : Run A) (k : A → M B) {a : A} {q : Parser} {r : Run B}
      → m ≡ value a q
      → k a q ≡ r
      → bind m k ≡ r
  behind m k e h = ap (λ n. bind n k) e ∙ h

  pub accept-other :
      (k : Kind) (p : Parser) → is_kind (kind p) k ≡ false → accept k p ≡ value false p
  unfolding accept
  accept-other k p h = rw (h, accept) refl

  module _ (f : ℕ) (expr : M Node) where
    keeps_node :
        (node : Node) (q : Parser)
        → is_node node ≡ true
        → slot_access_expr f expr node q ≡ value node q
    unfolding slot_access_expr
    keeps_node missing q h = cc
    keeps_node _ q h = refl

  module _ (f : ℕ) (expr : M Node) where
    call_expr-operand :
        (p q : Parser) (node : Node)
        → is_node node ≡ true
        → primary_expr (suc f) expr p ≡ value node q
        → Stops 0 (kind q)
        → call_expr (suc f) expr (suc f) missing p ≡ value node q
    unfolding call_expr slot_access_expr
    call_expr-operand p q node n e h =
        rw (e, accept-other lparen q (no_paren _ h), no_paren _ h)
          (keeps_node (suc f) expr node q n)

    pow_expr-operand :
        (p q : Parser) (node : Node)
        → is_node node ≡ true
        → primary_expr (suc f) expr p ≡ value node q
        → Stops 0 (kind q)
        → pow_expr (suc f) expr p ≡ value node q
    unfolding pow_expr
    pow_expr-operand p q node n e h =
        behind _ _ (call_expr-operand p q node n e h)
          (behind (accept op_pow q) _ (accept-other op_pow q (no_power _ h)) refl)

    postfix_expr-operand :
        (p q : Parser) (node : Node)
        → is_node node ≡ true
        → primary_expr (suc f) expr p ≡ value node q
        → Stops 0 (kind q)
        → postfix_expr (suc f) expr p ≡ value node q
    unfolding postfix_expr
    postfix_expr-operand p q node n e h =
        behind _ _ (pow_expr-operand p q node n e h) (otherwise _ _ _ q (no_postfix _ h) refl)

    -- Nothing between the two functions goes on the operand.
    pub unary_expr-operand :
        (g : ℕ) (p q : Parser) (node : Node)
        → is_node node ≡ true
        → is_one_of prefixes (kind p) ≡ false
        → primary_expr (suc f) expr p ≡ value node q
        → Stops 0 (kind q)
        → unary_expr (suc f) expr (suc g) p ≡ value node q
    unfolding unary_expr
    unary_expr-operand g p q node n k e h =
        otherwise _ _ _ p k (postfix_expr-operand p q node n e h)
