-- ===== src/Parser/Reads/Terms.antt =====
-- The functions of Parser/Expr up to `primary_expr`.
use ifj.Prelude.{ℕ, zero, suc, ◌≤◌, ◌<◌, true, false, Bool-cases, inl, inr, arith, List, [], ◌∷◌}
use ifj.Token.{
  Kind, is_kind, id, comma, int, double, string, lbrack, rbrack, lbrace, rbrace, as_kw, lparen,
  rparen,
}
use ifj.Ast.{Node, Nodes, nil}
use ifj.Parser.Source.{Source}
use ifj.Parser.Monad.{Parser, M, kind, is_one_of}
use ifj.Parser.Expr.{
  type_expr, decl_names, decl_expr, paren_expr, arg_list, array_expr, hash_pairs, hash_expr,
  primary_expr,
}
use ifj.Parser.Reads.{
  size, Ensures, returns, gives_up, after, Ensures-with_error, weaken, Fell, Kept, next-Ensures,
  accept-Ensures, expect-Ensures, demand-Ensures,
}

module _ ⦃G : Source⦄ where
  -- A call with less than `f` left to scan succeeds by reading on.
  abbrev pub Reads : ℕ → M Node → Type 0
  Reads f m = (n : ℕ) (p : Parser) → size p ≤ n → size p < f → Ensures n (Fell p) (m p)

  pub type_expr-Ensures : (n : ℕ) (p : Parser) → size p ≤ n → Ensures n (Fell p) (type_expr p)
  unfolding type_expr
  type_expr-Ensures n p h = elim (Bool-cases (is_kind (kind p) id)) [
    | inl e ↦ rw (e, type_expr) (after (next-Ensures n p) λ _ q k. returns k)
    | inr e ↦ rw (e, type_expr) (gives_up h)
  ]

  decl_names-Ensures :
      (f : ℕ) (vec : Nodes) (n : ℕ) (p : Parser)
      → size p ≤ n
      → size p < f
      → Ensures n (Kept p) (decl_names f vec p)
  unfolding decl_names
  decl_names-Ensures zero vec n p h b = absurd (omega arith)
  decl_names-Ensures (suc f) vec n p h b = elim (Bool-cases (is_kind (kind p) id)) [
    | inl e ↦
        rw (e, decl_names)
          (after (next-Ensures n p) λ _ q k. after (accept-Ensures n comma q) (elim [
            | true ↦ λ r m.
                weaken (omega arith) (λ _ s l. omega arith)
                  (decl_names-Ensures f _ n r (omega arith) (omega arith))
            | false ↦ λ r m. returns (omega arith)
          ]))
    | inr e ↦ rw (e, decl_names) (returns (omega arith))
  ]

  pub decl_expr-Ensures :
      (f n : ℕ) (p : Parser) → size p ≤ n → size p < f → Ensures n (Fell p) (decl_expr f p)
  unfolding decl_expr
  decl_expr-Ensures f n p h b = elim (Bool-cases (is_kind (kind p) id)) [
    | inl e ↦
        rw (e, decl_expr)
          (after (decl_names-Ensures f nil n _ h b) λ vec q k.
            after (demand-Ensures n as_kw "expecting type" q (omega arith)) λ _ r l.
              after (Ensures-with_error "expecting type" (type_expr-Ensures n r (omega arith)))
                λ type s m. returns (omega arith))
    | inr e ↦ rw (e, decl_expr) (gives_up h)
  ]

-- `g` is the fuel of the nested calls, one less than that of the function itself.
module _ ⦃G : Source⦄ (g : ℕ) (expr : M Node) (nested : Reads g expr) where
  paren_expr-Reads : Reads (suc g) (paren_expr (suc g) expr)
  unfolding paren_expr
  paren_expr-Reads n p h b = after (expect-Ensures n lparen p h) λ _ q k.
      after (nested n q (omega arith) (omega arith))
        λ node r l. after (demand-Ensures n rparen _ r (omega arith)) λ _ s m. returns (omega arith)

  arg_list-Ensures :
      (f : ℕ) (arr : Nodes) (delim : Kind) (n : ℕ) (p : Parser)
      → size p ≤ n
      → size p < f
      → size p < g
      → Ensures n (Kept p) (arg_list (suc g) expr f arr delim p)
  unfolding arg_list
  arg_list-Ensures zero arr delim n p h b c = absurd (omega arith)
  arg_list-Ensures (suc f) arr delim n p h b c = elim (Bool-cases (is_kind (kind p) delim)) [
    | inl e ↦ rw (e, arg_list) (returns (omega arith))
    | inr e ↦
        rw (e, arg_list)
          (after (nested n p h c) λ val q k. after (accept-Ensures n comma q) (elim [
            | true ↦ λ r m.
                weaken (omega arith) (λ _ s l. omega arith)
                  (arg_list-Ensures f _ delim n r (omega arith) (omega arith) (omega arith))
            | false ↦ λ r m. returns (omega arith)
          ]))
  ]

  array_expr-Reads : Reads (suc g) (array_expr (suc g) expr)
  unfolding array_expr
  array_expr-Reads n p h b = after (expect-Ensures n lbrack p h) λ _ q k.
      after (arg_list-Ensures (suc g) nil rbrack n _ (omega arith) (omega arith) (omega arith))
        λ vals r l. after (demand-Ensures n rbrack _ r (omega arith)) λ _ s m. returns (omega arith)

  hash_pairs-Ensures :
      (f : ℕ) (pairs : Nodes) (delim : Kind) (n : ℕ) (p : Parser)
      → size p ≤ n
      → size p < f
      → size p < g
      → Ensures n (Kept p) (hash_pairs (suc g) expr f pairs delim p)
  unfolding hash_pairs
  hash_pairs-Ensures zero pairs delim n p h b c = absurd (omega arith)
  hash_pairs-Ensures (suc f) pairs delim n p h b c = elim (Bool-cases (is_kind (kind p) delim)) [
    | inl e ↦ rw (e, hash_pairs) (returns (omega arith))
    | inr e ↦
        rw (e, hash_pairs)
          (after (nested n p h c) λ key q k.
            after (demand-Ensures n as_kw _ q (omega arith)) λ _ r l.
              after (nested n r (omega arith) (omega arith)) λ val s m.
                after (accept-Ensures n comma s) (elim [
                  | true ↦ λ t o.
                      weaken (omega arith) (λ _ u i. omega arith)
                        (hash_pairs-Ensures f _ delim n t (omega arith) (omega arith) (omega arith))
                  | false ↦ λ t o. returns (omega arith)
                ]))
  ]

  hash_expr-Reads : Reads (suc g) (hash_expr (suc g) expr)
  unfolding hash_expr
  hash_expr-Reads n p h b = after (expect-Ensures n lbrace p h) λ _ q k.
      after (hash_pairs-Ensures (suc g) nil rbrace n _ (omega arith) (omega arith) (omega arith))
        λ pairs r l.
          after (demand-Ensures n rbrace _ r (omega arith)) λ _ s m. returns (omega arith)

  abbrev leaves : List Kind
  leaves = id ∷ int ∷ double ∷ string ∷ []

  pub primary_expr-Reads : Reads (suc g) (primary_expr (suc g) expr)
  unfolding primary_expr
  primary_expr-Reads n p h b = elim (Bool-cases (is_one_of leaves (kind p))) [
    | inl e ↦ rw (e, primary_expr) (after (next-Ensures n p) λ _ q k. returns k)
    | inr e ↦ elim (Bool-cases (is_kind (kind p) lbrack)) [
      | inl i ↦ rw (e, i, primary_expr) (array_expr-Reads n p h b)
      | inr i ↦ elim (Bool-cases (is_kind (kind p) lbrace)) [
        | inl j ↦ rw (e, i, j, primary_expr) (hash_expr-Reads n p h b)
        | inr j ↦ rw (e, i, j, primary_expr) (paren_expr-Reads n p h b)
      ]
    ]
  ]
