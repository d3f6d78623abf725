-- ===== src/Parser/Reads/Levels.antt =====
-- The functions of Parser/Operators.
use Prim.Native.String.{String}
use ifj.Prelude.{ℕ, zero, suc, ◌≤◌, ◌<◌, true, false, Bool-cases, inl, inr, arith, List, [], ◌∷◌}
use ifj.Token.{Kind, op_pow, op_incr, op_decr, op_fork, op_assign, op_lnot, dim_kw, comma}
use ifj.Ast.{Node, Nodes, is_node, nil}
use ifj.Parser.Source.{Source}
use ifj.Parser.Monad.{Parser, M, pure, kind, is_one_of}
use ifj.Parser.Operators.{
  binary_loop, binary_level, pow_expr, postfix_expr, prefixes, unary_expr, multiplicative_expr,
  additive_expr, shift_expr, relational_expr, equality_expr, bitwise_and_expr, bitwise_xor_expr,
  bitwise_or_expr, logical_and_expr, logical_or_expr, dim_value, dim_item, dim_loop, dim_expr,
  compounds, assign_right, assignment_expr, not_expr,
}
use ifj.Parser.Reads.{
  size, Ensures, returns, gives_up, after, choose, Ensures-with_error, weaken, Fell, Kept,
  Ensures-stored, next-Ensures, accept-Ensures,
}
use ifj.Parser.Reads.Terms.{Reads, decl_expr-Ensures}
use ifj.Parser.Reads.Calls.{operand-Reads}

module _ ⦃G : Source⦄ where
  binary_loop-Kept :
      (f : ℕ) (ops : List Kind) (ctx : String) (m : M Node)
      → Reads f m
      → (g : ℕ) (line : ℕ) (node : Node) (n : ℕ) (p : Parser) → size p ≤ n
      → size p < f
      → size p < g
      → Ensures n (Kept p) (binary_loop ops ctx m line g node p)
  unfolding binary_loop
  binary_loop-Kept f ops ctx m h zero line node n p a b c = absurd (omega arith)
  binary_loop-Kept f ops ctx m h (suc g) line node n p a b c =
      choose (is_one_of ops (kind p)) _ _ p
        (λ e. after (next-Ensures n p) λ _ q k.
          after (Ensures-with_error _ (h n _ (omega arith) (omega arith))) λ right r l.
            weaken (omega arith) (λ _ s o. omega arith)
              (binary_loop-Kept f ops ctx m h g line _ n r (omega arith) (omega arith)
                (omega arith)))
        (λ e. returns (omega arith))

  pub binary_level-Reads :
      (f : ℕ) (ops : List Kind) (ctx : String) (m : M Node)
      → Reads f m
      → Reads f (binary_level f ops ctx m)
  unfolding binary_level
  binary_level-Reads f ops ctx m h n p a b = after (h n p a b) λ node q k.
      weaken (omega arith) (λ _ s o. omega arith)
        (binary_loop-Kept f ops ctx m h f _ node n q (omega arith) (omega arith) (omega arith))

module _ ⦃G : Source⦄ (g : ℕ) (expr : M Node) (nested : Reads g expr) where
  pow_expr-Reads : Reads (suc g) (pow_expr (suc g) expr)
  unfolding pow_expr
  pow_expr-Reads n p h b = after (operand-Reads g expr nested n p h b) λ node q k.
      after (accept-Ensures n op_pow q) (elim [
        | true ↦ λ r m.
            after
              (Ensures-with_error _ (operand-Reads g expr nested n _ (omega arith) (omega arith)))
              λ right s l. returns (omega arith)
        | false ↦ λ r m. returns (omega arith)
      ])

  postfix_expr-Reads : Reads (suc g) (postfix_expr (suc g) expr)
  unfolding postfix_expr
  postfix_expr-Reads n p h b = after (pow_expr-Reads n p h b) λ node q k.
      choose (is_one_of (op_incr ∷ op_decr ∷ []) (kind q)) _ _ q
        (λ e. after (next-Ensures n q) λ _ r l. returns (omega arith)) (λ e. returns k)

  unary_expr-Ensures :
      (f n : ℕ) (p : Parser)
      → size p ≤ n
      → size p < suc g
      → size p < f
      → Ensures n (Fell p) (unary_expr (suc g) expr f p)
  unfolding unary_expr
  unary_expr-Ensures zero n p h b c = absurd (omega arith)
  unary_expr-Ensures (suc f) n p h b c =
      choose (is_one_of prefixes (kind p)) _ _ p
        (λ e. after (next-Ensures n p) λ _ q k.
          after
            (Ensures-stored q
              (unary_expr-Ensures f (size q) q (omega arith) (omega arith) (omega arith)))
            λ node r l. returns (omega arith))
        (λ e. postfix_expr-Reads n p h b)

  logical_and_expr-Reads : Reads (suc g) (logical_and_expr (suc g) expr)
  unfolding logical_and_expr bitwise_or_expr bitwise_xor_expr bitwise_and_expr equality_expr
      relational_expr shift_expr additive_expr multiplicative_expr
  logical_and_expr-Reads = level _ _ (
      level _ _ (
        level _ _ (
          level _ _ (
            level _ _ (
              level _ _ (
                level _ _
                  (level _ _ (level _ _ (λ n p h b. unary_expr-Ensures (suc g) n p h b b)))))))))
    where
      level :
          {m : M Node} (ops : List Kind) (ctx : String)
          → Reads (suc g) m
          → Reads (suc g) (binary_level (suc g) ops ctx m)
      level {m} ops ctx = binary_level-Reads (suc g) ops ctx m

  logical_or_expr-Reads : Reads (suc g) (logical_or_expr (suc g) expr)
  unfolding logical_or_expr
  logical_or_expr-Reads n p h b =
      after (binary_level-Reads (suc g) _ _ _ logical_and_expr-Reads n p h b) λ node q k.
        after (accept-Ensures n op_fork q)
          (elim [ true ↦ λ r m. returns (omega arith) | false ↦ λ r m. returns (omega arith) ])

  dim_value-Kept :
      (n : ℕ) (p : Parser)
      → size p ≤ n
      → size p < suc g
      → Ensures n (Kept p) (dim_value (suc g) expr p)
  unfolding dim_value
  dim_value-Kept n p h b = after (accept-Ensures n op_assign p) (elim [
    | true ↦ λ r m.
        weaken (omega arith) (λ _ s l. omega arith)
          (Ensures-with_error _ (nested n r (omega arith) (omega arith)))
    | false ↦ λ r m. returns m.0
  ])

  dim_item-Kept :
      (n : ℕ) (p : Parser)
      → size p ≤ n
      → size p < suc g
      → Ensures n (Kept p) (dim_item (suc g) expr p)
  unfolding dim_item
  dim_item-Kept n p h b =
      after (Ensures-stored p (decl_expr-Ensures (suc g) (size p) p (omega arith) b)) λ decl q k.
        elim (Bool-cases (is_node decl)) [
          | inl e ↦ rw e (
              after (dim_value-Kept n _ (omega arith) (omega arith))
                λ val r l. returns (omega arith))
          | inr e ↦ rw e (gives_up (omega arith))
        ]

  dim_loop-Kept :
      (f : ℕ) (vec : Nodes) (n : ℕ) (p : Parser)
      → size p ≤ n
      → size p < suc g
      → size p < f
      → Ensures n (Kept p) (dim_loop (suc g) expr f vec p)
  unfolding dim_loop
  dim_loop-Kept zero vec n p h b c = absurd (omega arith)
  dim_loop-Kept (suc f) vec n p h b c = after (dim_item-Kept n p h b) λ item q k.
      after (accept-Ensures n comma q) (elim [
        | true ↦ λ r m.
            weaken (omega arith) (λ _ s l. omega arith)
              (dim_loop-Kept f _ n r (omega arith) (omega arith) (omega arith))
        | false ↦ λ r m. returns (omega arith)
      ])

  assign_right-Ensures :
      (ctx : String) (op : Kind) (node : Node) (line n : ℕ) (p : Parser)
      → size p ≤ n
      → size p < suc g
      → Ensures n (Fell p) (assign_right (suc g) expr ctx op node line p)
  unfolding assign_right
  assign_right-Ensures ctx op node line n p h b =
      after (next-Ensures n p)
        λ _ q k. after (nested n _ (omega arith) (omega arith)) λ right r l. returns (omega arith)

  assignment_expr-Reads : Reads (suc g) (assignment_expr (suc g) expr)
  unfolding assignment_expr dim_expr
  assignment_expr-Reads n p h b = after (accept-Ensures n dim_kw p) (elim [
    | true ↦ λ q k.
        after (dim_loop-Kept (suc g) nil n q (omega arith) (omega arith) (omega arith))
          λ vec r l. returns (omega arith)
    | false ↦ λ q k.
        after (logical_or_expr-Reads n q (omega arith) (omega arith))
          λ node r l. assigned node r (omega arith)
  ])
    where
      assigned :
          (node : Node) (r : Parser)
          → size r < size p
          → Ensures n (Fell p) (
              (elim (is_one_of (op_assign ∷ []) (kind r)) as (λ _. M Node) [
                | true ↦ assign_right (suc g) expr "assignment" (kind r) node (G.line p.lex)
                | false ↦ elim (is_one_of compounds (kind r)) as (λ _. M Node) [
                  | true ↦
                      assign_right (suc g) expr "compound assignment" (kind r) node (G.line p.lex)
                  | false ↦ pure node
                ]
              ])
                r)
      assigned node r l = elim (Bool-cases (is_one_of (op_assign ∷ []) (kind r))) [
        | inl e ↦ rw e (
            weaken (omega arith) (λ _ s o. omega arith)
              (assign_right-Ensures _ _ node _ n r (omega arith) (omega arith)))
        | inr e ↦ elim (Bool-cases (is_one_of compounds (kind r))) [
          | inl i ↦
              rw (e, i)
                (weaken (omega arith) (λ _ s o. omega arith)
                  (assign_right-Ensures _ _ node _ n r (omega arith) (omega arith)))
          | inr i ↦ rw (e, i) (returns l)
        ]
      ]

  pub not_expr-Reads : Reads (suc g) (not_expr (suc g) expr)
  unfolding not_expr
  not_expr-Reads n p h b = after (accept-Ensures n op_lnot p) (elim [
    | true ↦ λ q k. after (nested n q (omega arith) (omega arith)) λ node r l. returns (omega arith)
    | false ↦ λ q k.
        weaken (omega arith) (λ _ s o. omega arith)
          (assignment_expr-Reads n q (omega arith) (omega arith))
  ])
