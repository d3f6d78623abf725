-- ===== src/Parser/Associates.antt =====
-- How a level of binary operators in src/parser.c groups its operands.
use Prim.Native.String.{String}
use ifj.Prelude.{
  ℕ, zero, suc, ◌<◌, ◌≡◌, refl, ap, ◌∙◌, arith, Bool, true, false, List, [], ◌∷◌, length, some,
}
use ifj.Token.{Kind}
use ifj.Ast.{Node, binary_op_node_new}
use ifj.Parser.Source.{Source}
use ifj.Parser.Monad.{Parser, Run, value, M, kind, is_one_of, next, bind, with_error}
use ifj.Parser.Operators.{binary_loop, binary_level}

-- The tree of operators and their right operands, in the order of the input: it grows to the
-- left, and every node has the line of the first operand.
abbrev pub left_tree : ℕ → Node → List (Kind × Node) → Node
left_tree line node [] = node
left_tree line node ((op, right) ∷ rest) =
    left_tree line (binary_op_node_new op node right line) rest

module _ ⦃G : Source⦄ (ops : List Kind) (ctx : String) (operand : M Node) where
  -- From one state to another the input holds operators of the level, each with an operand
  -- behind it, and then a token that is none of them.
  pub data Operands : Parser → List (Kind × Node) → Parser → Type 0 where
    no_more : {p : Parser} → is_one_of ops (kind p) ≡ false → Operands p [] p
    one_more :
        {p q r s : Parser} {right : Node} {rest : List (Kind × Node)}
        → is_one_of ops (kind p) ≡ true
        → next p ≡ value tt q
        → operand (record q { ctx = some ctx }) ≡ value right r
        → Operands r rest s
        → Operands p ((kind p, right) ∷ rest) s

  choose_true :
      (b : Bool) (x y : M Node) (p : Parser)
      → b ≡ true
      → (elim b as (λ _. M Node) [ true ↦ x | false ↦ y ]) p ≡ x p
  choose_true true x y p e = refl
  choose_true false x y p e = cc

  choose_false :
      (b : Bool) (x y : M Node) (p : Parser)
      → b ≡ false
      → (elim b as (λ _. M Node) [ true ↦ x | false ↦ y ]) p ≡ y p
  choose_false true x y p e = cc
  choose_false false x y p e = refl

  after_operator :
      {A : Type 0} {B : Type 0} (m : Run A) (f : A → M B) {a : A} {q : Parser} {r : Run B}
      → m ≡ value a q
      → f a q ≡ r
      → bind m f ≡ r
  after_operator m f {a} {q} e h = ap (λ n. bind n f) e ∙ h

  binary_loop-Operands :
      (f : ℕ) (line : ℕ) (node : Node) {p s : Parser} {rest : List (Kind × Node)}
      → Operands p rest s
      → length rest < f
      → binary_loop ops ctx operand line f node p ≡ value (left_tree line node rest) s
  unfolding binary_loop
  binary_loop-Operands zero line node h k = absurd (omega arith)
  binary_loop-Operands (suc f) line node (no_more e) k = choose_false _ _ _ _ e
  binary_loop-Operands (suc f) line node (one_more e n o h) k =
      choose_true _ _ _ _ e
      ∙ after_operator _ _ n (
          after_operator _ _ (ap (with_error "missing right-hand expression") o)
            (binary_loop-Operands f line _ h (omega arith)))

  -- A level of binary operators groups to the left: where an operand is read and then operators of
  -- the level with an operand each, up to a token that is no operator of the level, with more fuel
  -- than operators, the result is the tree that grows to the left.
  pub binary_level-Operands :
      (fuel : ℕ) {p q s : Parser} {first : Node} {rest : List (Kind × Node)}
      → operand p ≡ value first q
      → Operands q rest s
      → length rest < fuel
      → binary_level fuel ops ctx operand p ≡ value (left_tree (G.line p.lex) first rest) s
  unfolding binary_level
  binary_level-Operands fuel e h k = after_operator _ _ e (binary_loop-Operands fuel _ _ h k)
