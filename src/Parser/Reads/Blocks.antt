-- ===== src/Parser/Reads/Blocks.antt =====
-- The statements of src/parser.c that hold blocks, and the loop of `block`.
use Prim.Native.String.{String}
use ifj.Prelude.{ℕ, zero, suc, ◌≤◌, ◌<◌, Bool, true, false, arith, [], ◌∷◌, if◌then◌else◌}
use ifj.Token.{
  Kind, is_kind, id, type_kw, end_kw, semicolon, scope_kw, declare_kw, function_kw, if_kw, then_kw,
  elseif_kw, else_kw, do_kw, while_kw, loop_kw, return_kw, print_kw, input_kw,
}
use ifj.Ast.{Node, Nodes, nil}
use ifj.Parser.Source.{Source}
use ifj.Parser.Monad.{Parser, M, pure, kind, is_one_of, ensure, accept}
use ifj.Parser.Block.{
  scope_stmt, function_stmt, condition_block, else_loop, if_stmt, while_stmt, dispatch, stmt,
  closing, block_ends, block_loop, block_body,
}
use ifj.Parser.Reads.{
  size, Ensures, returns, gives_up, after, choose, weaken, Kept, next-Ensures, accept-Ensures,
  accept-Kept, expect-Ensures, demand-Ensures, require-Ensures,
}
use ifj.Parser.Reads.Terms.{Reads}
use ifj.Parser.Reads.Statements.{
  type_stmt-Reads, optional_params-Kept, optional_type-Kept, func_declare-Reads, return_stmt-Reads,
  print_stmt-Reads, input_stmt-Reads,
}

-- A block may end before it has read anything.
abbrev pub Keeps : ⦃G : Source⦄ → ℕ → M Node → Type 0
Keeps f m = (n : ℕ) (p : Parser) → size p ≤ n → size p < f → Ensures n (Kept p) (m p)

module _ ⦃G : Source⦄ (g : ℕ) (expr block : M Node) (reads : Reads (suc g) expr)
    (keeps : Keeps g block) where
  scope_stmt-Reads : Reads (suc g) (scope_stmt (suc g) expr block)
  unfolding scope_stmt
  scope_stmt-Reads n p h b =
      after (expect-Ensures n scope_kw _ h)
        λ _ q k. after (keeps n q (omega arith) (omega arith)) λ body r l. returns (omega arith)

  function_stmt-Reads : Reads (suc g) (function_stmt (suc g) expr block)
  unfolding function_stmt
  function_stmt-Reads n p h b = after (expect-Ensures n function_kw _ h) λ _ q k.
      after (require-Ensures n id "missing function name" q (omega arith)) λ _ r l.
        after (next-Ensures n r) λ _ s m.
          after (optional_params-Kept (suc g) expr reads _ n s (omega arith) (omega arith))
            λ params t o.
              after (optional_type-Kept (suc g) expr reads n _ (omega arith)) λ type u i.
                after (accept-Kept n semicolon u (omega arith)) λ _ v j.
                  after (keeps n v (omega arith) (omega arith)) λ body w z. returns (omega arith)

  condition_block-Reads :
      (ctx : String) (line : ℕ) → Reads (suc g) (condition_block (suc g) expr block ctx line)
  unfolding condition_block
  condition_block-Reads ctx line n p h b = after (reads n _ h b) λ cond q k.
      after (demand-Ensures n then_kw "missing 'then'" q (omega arith))
        λ _ r l. after (keeps n _ (omega arith) (omega arith)) λ body s m. returns (omega arith)

  else_loop-Kept :
      (f : ℕ) (line : ℕ) (else_ifs : Nodes) (n : ℕ) (p : Parser)
      → size p ≤ n
      → size p < suc g
      → size p < f
      → Ensures n (Kept p) (else_loop (suc g) expr block f line else_ifs p)
  unfolding else_loop
  else_loop-Kept zero line else_ifs n p h b c = absurd (omega arith)
  else_loop-Kept (suc f) line else_ifs n p h b c = after (accept-Ensures n else_kw p) (elim [
    | true ↦ λ q k. after (keeps n _ (omega arith) (omega arith)) λ body r l. returns (omega arith)
    | false ↦ λ q k. after (accept-Ensures n elseif_kw q) (elim [
      | true ↦ λ r m.
          after (condition_block-Reads _ line n r (omega arith) (omega arith)) λ node s l.
            weaken (omega arith) (λ _ t o. omega arith)
              (else_loop-Kept f line _ n s (omega arith) (omega arith) (omega arith))
      | false ↦ λ r m. returns (omega arith)
    ])
  ])

  if_stmt-Reads : Reads (suc g) (if_stmt (suc g) expr block)
  unfolding if_stmt
  if_stmt-Reads n p h b = after (expect-Ensures n if_kw p h) λ _ q k.
      after (condition_block-Reads _ _ n q (omega arith) (omega arith)) λ node r l.
        after (else_loop-Kept (suc g) _ nil n r (omega arith) (omega arith) (omega arith))
          λ rest s m. returns (omega arith)

  while_stmt-Reads : Reads (suc g) (while_stmt (suc g) expr block)
  unfolding while_stmt
  while_stmt-Reads n p h b = after (expect-Ensures n do_kw p h) λ _ q k.
      after (demand-Ensures n while_kw "missing 'while'" q (omega arith)) λ _ r l.
        after (reads n _ (omega arith) (omega arith)) λ cond s m.
          after (accept-Kept n semicolon s (omega arith))
            λ _ t o. after (keeps n t (omega arith) (omega arith)) λ body u i. returns (omega arith)

  if-Reads :
      (b : Bool) {x y : M Node}
      → Reads (suc g) x
      → Reads (suc g) y
      → Reads (suc g) (if b then x else y)
  if-Reads true h k = h
  if-Reads false h k = k

  dispatch-Reads : (k : Kind) → Reads (suc g) (dispatch (suc g) expr block k)
  unfolding dispatch
  dispatch-Reads k = if-Reads (is_kind k print_kw) (print_stmt-Reads (suc g) expr reads) (
      if-Reads (is_kind k input_kw) (input_stmt-Reads (suc g) expr reads) (
        if-Reads (is_kind k if_kw) if_stmt-Reads (
          if-Reads (is_kind k do_kw) while_stmt-Reads (
            if-Reads (is_kind k return_kw) (return_stmt-Reads (suc g) expr reads) (
              if-Reads (is_kind k scope_kw) scope_stmt-Reads (
                if-Reads (is_kind k declare_kw) (func_declare-Reads (suc g) expr reads) (
                  if-Reads (is_kind k function_kw) function_stmt-Reads
                    (if-Reads (is_kind k type_kw) (type_stmt-Reads (suc g) expr reads) reads))))))))

  pub stmt-Reads : Reads (suc g) (stmt (suc g) expr block)
  unfolding stmt
  stmt-Reads n p h b = dispatch-Reads (kind p) n _ h b

  closing-Kept :
      (n : ℕ) (p : Parser) → size p ≤ n → Ensures n (Kept p) (closing (suc g) expr block p)
  unfolding closing
  closing-Kept n p h = after (accept-Kept n function_kw p h) λ a q k.
      after (otherwise a scope_kw n q (omega arith)) λ b r l.
        after (otherwise b if_kw n r (omega arith))
          λ c s m. weaken (omega arith) (λ _ t o. omega arith) (ensured c n s (omega arith))
    where
      otherwise :
          (b : Bool) (k : Kind) (n : ℕ) (q : Parser)
          → size q ≤ n
          → Ensures n (Kept q) ((if b then pure true else accept k) q)
      otherwise true k n q h = returns (omega arith)
      otherwise false k n q h = accept-Kept n k q h

      ensured :
          (c : Bool) (n : ℕ) (q : Parser)
          → size q ≤ n
          → Ensures n (Kept q) (ensure c "expecting closing statement" q)
      ensured true n q h = returns (omega arith)
      ensured false n q h = gives_up h

  block_ends-Kept :
      (n : ℕ) (p : Parser) → size p ≤ n → Ensures n (Kept p) (block_ends (suc g) expr block p)
  unfolding block_ends
  block_ends-Kept n p h =
      choose (is_one_of (else_kw ∷ elseif_kw ∷ []) (kind p)) _ _ p (λ e. returns (omega arith))
        λ e. after (accept-Kept n loop_kw p h) (elim [
          | true ↦ λ q k. returns k
          | false ↦ λ q k. after (accept-Kept n end_kw q (omega arith)) (elim [
            | true ↦ λ r l. after (closing-Kept n r (omega arith)) λ _ s m. returns (omega arith)
            | false ↦ λ r l. returns (omega arith)
          ])
        ])

  block_loop-Kept :
      (f : ℕ) (stmts : Nodes) (n : ℕ) (p : Parser)
      → size p ≤ n
      → size p < suc g
      → size p < f
      → Ensures n (Kept p) (block_loop (suc g) expr block f stmts p)
  unfolding block_loop
  block_loop-Kept zero stmts n p h b c = absurd (omega arith)
  block_loop-Kept (suc f) stmts n p h b c = after (block_ends-Kept n p h) (elim [
    | true ↦ λ q k. returns k
    | false ↦ λ q k. after (stmt-Reads n q (omega arith) (omega arith)) λ node r l.
        after (accept-Kept n semicolon r (omega arith)) λ _ s m.
          weaken (omega arith) (λ _ t o. omega arith)
            (block_loop-Kept f _ n s (omega arith) (omega arith) (omega arith))
  ])

  pub block_body-Keeps : Keeps (suc g) (block_body (suc g) expr block)
  unfolding block_body
  block_body-Keeps n p h b = after (block_loop-Kept (suc g) nil n p h b b) λ stmts q k. returns k
