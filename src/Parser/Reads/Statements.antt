-- ===== src/Parser/Reads/Statements.antt =====
-- The statements of src/parser.c that hold no block.
use Prim.Native.String.{String}
use ifj.Prelude.{ℕ, zero, suc, ◌≤◌, ◌<◌, Bool, true, false, arith}
use ifj.Token.{
  is_kind, id, op_assign, comma, type_kw, end_kw, semicolon, declare_kw, function_kw, lparen,
  rparen, as_kw, return_kw, print_kw, input_kw,
}
use ifj.Ast.{Node, Nodes, is_node, nil}
use ifj.Parser.Source.{Source}
use ifj.Parser.Monad.{Parser, M, kind}
use ifj.Parser.Stmt.{
  function_param, params_loop, function_params, fields_loop, type_stmt, optional_params,
  optional_type, func_declare, return_stmt, print_loop, print_stmt, note_unless, input_stmt,
}
use ifj.Parser.Reads.{
  size, Ensures, returns, after, choose, Ensures-with_error, weaken, Fell, Kept, Ensures-stored,
  next-Ensures, accept-Ensures, accept-Kept, expect-Ensures, demand-Ensures, require-Ensures,
}
use ifj.Parser.Reads.Terms.{Reads, decl_expr-Ensures, type_expr-Ensures}

module _ ⦃G : Source⦄ (f : ℕ) (expr : M Node) (nested : Reads f expr) where
  pub function_param-Reads : Reads f (function_param f expr)
  unfolding function_param
  function_param-Reads n p h b = after (decl_expr-Ensures f n p h b) λ decl q k.
      after (accept-Ensures n op_assign _) (elim [
        | true ↦
            λ r m. after (nested n r (omega arith) (omega arith)) λ val s l. returns (omega arith)
        | false ↦ λ r m. returns (omega arith)
      ])

  pub params_loop-Kept :
      (g : ℕ) (params : Nodes) (n : ℕ) (p : Parser)
      → size p ≤ n
      → size p < f
      → size p < g
      → Ensures n (Kept p) (params_loop f expr g params p)
  unfolding params_loop
  params_loop-Kept zero params n p h b c = absurd (omega arith)
  params_loop-Kept (suc g) params n p h b c = after (function_param-Reads n p h b) λ param q k.
      after (accept-Ensures n comma q) (elim [
        | true ↦ λ r m.
            weaken (omega arith) (λ _ s l. omega arith)
              (params_loop-Kept g _ n r (omega arith) (omega arith) (omega arith))
        | false ↦ λ r m. returns (omega arith)
      ])

  pub function_params-Kept :
      (n : ℕ) (p : Parser) → size p ≤ n → size p < f → Ensures n (Kept p) (function_params f expr p)
  unfolding function_params
  function_params-Kept n p h b =
      choose (is_kind (kind p) id) _ _ _ (λ e. params_loop-Kept f nil n _ h b b)
        (λ e. returns (omega arith))

  pub fields_loop-Reads :
      (g : ℕ) (fields : Nodes) (n : ℕ) (p : Parser)
      → size p ≤ n
      → size p < f
      → size p < g
      → Ensures n (Fell p) (fields_loop f expr g fields p)
  unfolding fields_loop
  fields_loop-Reads zero fields n p h b c = absurd (omega arith)
  fields_loop-Reads (suc g) fields n p h b c =
      after (Ensures-with_error "expecting field" (decl_expr-Ensures f n p h b)) λ decl q k.
        after (accept-Kept n semicolon q (omega arith)) λ _ r l.
          after (accept-Ensures n end_kw r) (elim [
            | true ↦ λ s m. returns (omega arith)
            | false ↦ λ s m.
                weaken (omega arith) (λ _ t o. omega arith)
                  (fields_loop-Reads g _ n s (omega arith) (omega arith) (omega arith))
          ])

  pub type_stmt-Reads : Reads f (type_stmt f expr)
  unfolding type_stmt
  type_stmt-Reads n p h b = after (expect-Ensures n type_kw _ h) λ _ q k.
      after (require-Ensures n id "missing type name" q (omega arith)) λ _ r l.
        after (next-Ensures n r) λ _ s m. after (accept-Kept n semicolon s (omega arith)) λ _ t o.
          after (fields_loop-Reads f nil n t (omega arith) (omega arith) (omega arith))
            λ fields u i. returns (omega arith)

  pub optional_params-Kept :
      (ctx : String) (n : ℕ) (p : Parser)
      → size p ≤ n
      → size p < f
      → Ensures n (Kept p) (optional_params f expr ctx p)
  unfolding optional_params
  optional_params-Kept ctx n p h b = after (accept-Ensures n lparen p) (elim [
    | true ↦ λ q k. after (function_params-Kept n q (omega arith) (omega arith)) λ params r l.
        after (demand-Ensures n rparen "missing closing ')'" _ (omega arith))
          λ _ s m. returns (omega arith)
    | false ↦ λ q k. returns k.0
  ])

  pub optional_type-Kept :
      (n : ℕ) (p : Parser) → size p ≤ n → Ensures n (Kept p) (optional_type f expr p)
  unfolding optional_type
  optional_type-Kept n p h = after (accept-Ensures n as_kw p) (elim [
    | true ↦ λ q k.
        weaken (omega arith) (λ _ r l. omega arith)
          (Ensures-with_error "missing type after ':'" (type_expr-Ensures n q (omega arith)))
    | false ↦ λ q k. returns k.0
  ])

  pub func_declare-Reads : Reads f (func_declare f expr)
  unfolding func_declare
  func_declare-Reads n p h b = after (expect-Ensures n declare_kw p h) λ _ q k.
      after (demand-Ensures n function_kw "expecting 'function'" _ (omega arith)) λ _ r l.
        after (require-Ensures n id "missing function name" r (omega arith)) λ _ s m.
          after (next-Ensures n s) λ _ t o.
            after (optional_params-Kept _ n t (omega arith) (omega arith)) λ params u i.
              after (optional_type-Kept n _ (omega arith)) λ type v j.
                after (accept-Kept n semicolon v (omega arith)) λ _ w z. returns (omega arith)

  pub return_stmt-Reads : Reads f (return_stmt f expr)
  unfolding return_stmt
  return_stmt-Reads n p h b = after (expect-Ensures n return_kw _ h) λ _ q k.
      after (accept-Ensures n semicolon q) (elim [
        | true ↦ λ r m. returns (omega arith)
        | false ↦
            λ r m. after (nested n r (omega arith) (omega arith)) λ node s l. returns (omega arith)
      ])

  pub print_loop-Kept :
      (g : ℕ) (params : Nodes) (n : ℕ) (p : Parser)
      → size p ≤ n
      → size p < f
      → size p < g
      → Ensures n (Kept p) (print_loop f expr g params p)
  unfolding print_loop
  print_loop-Kept zero params n p h b c = absurd (omega arith)
  print_loop-Kept (suc g) params n p h b c =
      after (Ensures-stored p (nested (size p) p (omega arith) b)) λ param q k.
        choose (is_node param) _ _ q
          (λ e. after (accept-Ensures n semicolon q) (elim [
            | true ↦ λ r m.
                weaken (omega arith) (λ _ s l. omega arith)
                  (print_loop-Kept g _ n r (omega arith) (omega arith) (omega arith))
            | false ↦ λ r m. returns (omega arith)
          ]))
          (λ e. returns k)

  pub print_stmt-Reads : Reads f (print_stmt f expr)
  unfolding print_stmt
  print_stmt-Reads n p h b = after (expect-Ensures n print_kw _ h) λ _ q k.
      after (print_loop-Kept f nil n q (omega arith) (omega arith) (omega arith))
        λ params r l. returns (omega arith)

  pub note_unless-Kept :
      (b : Bool) (s : String) (n : ℕ) (p : Parser) → Ensures n (Kept p) (note_unless f expr b s p)
  unfolding note_unless
  note_unless-Kept true s n p = returns (omega arith)
  note_unless-Kept false s n p = returns (omega arith)

  pub input_stmt-Reads : Reads f (input_stmt f expr)
  unfolding input_stmt
  input_stmt-Reads n p h b = after (expect-Ensures n input_kw _ h) λ _ q k.
      after (Ensures-stored q (nested (size q) q (omega arith) (omega arith))) λ param r l.
        after (note_unless-Kept (is_node param) "Expected variable" n r)
          λ _ s m. after (accept-Kept n semicolon s (omega arith)) λ _ t o. returns (omega arith)
