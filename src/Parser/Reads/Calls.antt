-- ===== src/Parser/Reads/Calls.antt =====
-- The calls of Parser/Expr.
use ifj.Prelude.{ℕ, zero, suc, ◌≤◌, ◌<◌, true, false, Bool-cases, Option-cases, inl, inr, arith}
use ifj.Token.{is_kind, comma, as_kw, lparen, rparen}
use ifj.Ast.{Node, Nodes, Pairs, missing, nil}
use ifj.Parser.Source.{Source}
use ifj.Parser.Monad.{Parser, Run, M, bind, stored, pure, ◌>>◌, kind, next, require}
use ifj.Parser.Expr.{
  slot_access_expr, keyword_name, call_arg, call_args_loop, call_args, call_parens, call_expr,
}
use ifj.Parser.Reads.{
  size, Ensures, returns, gives_up, faults, after, weaken, Fell, Kept, Ensures-stored, next-Ensures,
  accept-Ensures, require-Ensures,
}
use ifj.Parser.Reads.Terms.{Reads, primary_expr-Reads}

module _ ⦃G : Source⦄ (g : ℕ) (expr : M Node) (nested : Reads g expr) where
  call_arg-Ensures :
      (vec : Nodes) (hash : Pairs) (n : ℕ) (p : Parser)
      → size p ≤ n
      → size p < g
      → Ensures n (Kept p) (call_arg (suc g) expr vec hash p)
  unfolding call_arg
  call_arg-Ensures vec hash n p h c = after (nested n p h c) λ node q k.
      after (accept-Ensures n as_kw q) (elim [
        | true ↦ λ r m. elim (Option-cases (keyword_name (suc g) expr node)) [
          | inl e ↦ rw e (gives_up (omega arith))
          | inr (str, e) ↦ rw e (
              after (Ensures-stored r (nested (size r) _ (omega arith) (omega arith)))
                λ val s l. returns (omega arith))
        ]
        | false ↦ λ r m. returns (omega arith)
      ])

  call_args_loop-Ensures :
      (f : ℕ) (vec : Nodes) (hash : Pairs) (n : ℕ) (p : Parser)
      → size p ≤ n
      → size p < f
      → size p < g
      → Ensures n (Kept p) (call_args_loop (suc g) expr f vec hash p)
  unfolding call_args_loop
  call_args_loop-Ensures zero vec hash n p h b c = absurd (omega arith)
  call_args_loop-Ensures (suc f) vec hash n p h b c =
      after (call_arg-Ensures vec hash n p h c) λ added q k.
        after (accept-Ensures n comma q) (elim [
          | true ↦ λ r m.
              weaken (omega arith) (λ _ s l. omega arith)
                (call_args_loop-Ensures f added.0 added.1 n r (omega arith) (omega arith)
                  (omega arith))
          | false ↦ λ r m. returns (omega arith)
        ])

  call_args-Ensures :
      (n : ℕ) (p : Parser) → size p ≤ n → size p < g → Ensures n (Kept p) (call_args (suc g) expr p)
  unfolding call_args
  call_args-Ensures n p h c =
      after (call_args_loop-Ensures (suc g) nil Pairs.no_pairs n _ h (omega arith) c)
        λ all q k. returns k

  stored_args :
      (n : ℕ) (p : Parser) (r : Run Node)
      → Ensures (size p) (Kept p) r
      → Ensures n (Kept p) (stored r)
  stored_args n p _ (returns h) = returns h
  stored_args n p _ (gives_up h) = returns h
  stored_args n p _ (faults h) = faults h

  closing_paren :
      (node : Node) (n : ℕ) (p : Parser)
      → size p ≤ n
      → Ensures n (Fell p) (bind (require rparen "missing closing ')'" p) λ _. next >> pure node)
  closing_paren node n p h =
      after (require-Ensures n rparen _ p h)
        λ _ q k. after (next-Ensures n q) λ _ r l. returns (omega arith)

  call_parens-Ensures :
      (left : Node) (line n : ℕ) (p : Parser)
      → size p ≤ n
      → size p < g
      → Ensures n (Fell p) (call_parens (suc g) expr left line p)
  unfolding call_parens
  call_parens-Ensures left line n p h c = elim (Bool-cases (is_kind (kind p) rparen)) [
    | inl e ↦ rw (e, call_parens) (closing_paren _ n _ h)
    | inr e ↦
        rw (e, call_parens)
          (after (stored_args n p _ (call_args-Ensures (size p) _ (omega arith) c)) λ args q k.
            weaken (omega arith) (λ _ s l. omega arith) (closing_paren _ n q (omega arith)))
  ]

  slot_access-Kept :
      (left : Node) (n : ℕ) (p : Parser)
      → size p ≤ n
      → size p < suc g
      → Ensures n (Kept p) (slot_access_expr (suc g) expr left p)
  unfolding slot_access_expr
  slot_access-Kept missing n p h b =
      weaken (omega arith) (λ _ q k. omega arith) (primary_expr-Reads g expr nested n p h b)
  slot_access-Kept _ n p h b = returns (omega arith)

  -- The end of a round of `call_expr`, given what a further call ensures.
  call_again :
      (f : ℕ) (node : Node) (n : ℕ) (s : Parser)
      → size s ≤ n
      → size s < suc g
      → Ensures n (Kept s) (call_expr (suc g) expr f node s)
      → Ensures n (Kept s) (
          (elim (is_kind (kind s) lparen) as (λ _. M Node) [
            | true ↦ call_expr (suc g) expr f node
            | false ↦ slot_access_expr (suc g) expr node
          ])
            s)
  call_again f node n s h b ih = elim (Bool-cases (is_kind (kind s) lparen)) [
    | inl e ↦ rw e ih
    | inr e ↦ rw e (slot_access-Kept node n s h b)
  ]

  call_expr_round :
      (f : ℕ) (left : Node) (n : ℕ) (p : Parser)
      → Ensures n (Kept p) (slot_access_expr (suc g) expr left p)
      → size p ≤ n
      → size p < suc g
      → ((node : Node) (s : Parser)
          → size s < size p
          → Ensures n (Kept s) (call_expr (suc g) expr f node s))
      → Ensures n (Kept p) (call_expr (suc g) expr (suc f) left p)
  unfolding call_expr
  call_expr_round f left n p first h b ih = after first λ callee q k.
      after (accept-Ensures n lparen q) (elim [
        | true ↦ λ r m.
            after (call_parens-Ensures callee _ n r (omega arith) (omega arith)) λ node s l.
              weaken (omega arith) (λ _ t o. omega arith)
                (call_again f node n s (omega arith) (omega arith) (ih node s (omega arith)))
        | false ↦ λ r m. rw m.1 (
            weaken (omega arith) (λ _ s l. omega arith)
              (slot_access-Kept callee n r (omega arith) (omega arith)))
      ])

  call_expr-Kept :
      (f : ℕ) (left : Node) (n : ℕ) (p : Parser)
      → size p ≤ n
      → size p < suc g
      → size p < f
      → Ensures n (Kept p) (call_expr (suc g) expr f left p)
  call_expr-Kept zero left n p h b c = absurd (omega arith)
  call_expr-Kept (suc f) left n p h b c =
      call_expr_round f left n p (slot_access-Kept left n p h b) h b
        λ node s l. call_expr-Kept f node n s (omega arith) (omega arith) (omega arith)

  -- With no left side `call_expr` reads a primary expression first.
  pub operand-Reads : Reads (suc g) (call_expr (suc g) expr (suc g) missing)
  unfolding call_expr slot_access_expr
  operand-Reads n p h b = after (primary_expr-Reads g expr nested n p h b) λ callee q k.
      after (accept-Ensures n lparen q) (elim [
        | true ↦ λ r m.
            after (call_parens-Ensures callee _ n r (omega arith) (omega arith)) λ node s l.
              weaken (omega arith) (λ _ t o. omega arith)
                (call_again g node n s (omega arith) (omega arith)
                  (call_expr-Kept g node n s (omega arith) (omega arith) (omega arith)))
        | false ↦ λ r m. rw m.1 (
            weaken (omega arith) (λ _ s l. omega arith)
              (slot_access-Kept callee n r (omega arith) (omega arith)))
      ])
