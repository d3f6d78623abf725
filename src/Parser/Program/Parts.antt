-- ===== src/Parser/Program/Parts.antt =====
-- The first token of a statement and the end of a block in src/parser.c, on the tokens of the
-- grammar.
use ifj.Prelude.{
  ℕ, ◌<◌, ◌≡◌, refl, sym, ap, ◌∙◌, subst, arith, true, false, List, [], ◌∷◌, ◌++◌, some,
}
use ifj.Token.{
  dim_kw, Token, Kind, ordinal, is_kind, is_one_of, else_kw, elseif_kw, return_kw, print_kw, do_kw,
  scope_kw, if_kw, input_kw, declare_kw, function_kw, type_kw,
}
use ifj.Ast.{dim_node_new, Node}
use ifj.Parser.Source.{Source}
use ifj.Parser.Monad.{Parser, Run, value, M, kind}
use ifj.Parser.Block.{stmt, dispatch, block_ends}
use ifj.Parser.Grammar.{expr}
use ifj.Parser.Syntax.{
  located_kind, Located, Expr, atom, prefix, parens, chain, tokens_of, tokens_behind,
}
use ifj.Parser.Syntax.Stream.{Streams, Streams-append, next-Streams, left-Streams}
use ifj.Parser.Syntax.Level.{Parsed}
use ifj.Parser.Program.{
  defined, Dims, dims_tokens, dims_trees, dims_line, DimsFit, received, dimmed, Whole, plain,
  assigned, negated, whole_tokens, Ending, at_loop, at_end, at_else, ending_tokens, EndingFits, Is,
  Stmt, expression, returned, returned_bare, printed, received, dimmed, looped, scoped, branched,
  stmt_tokens, StmtFits, starts_any,
}
use ifj.Parser.Program.Steps.{at_first, shown}
use ifj.Parser.Program.Wholes.{whole-starts_any}
use ifj.Parser.Program.Dimensions.{dim_expr-Parsed}
use ifj.Parser.Program.Closing.{opens, block_ends-loop, block_ends-end, block_ends-else}
use ifj.Parser.Program.Simple.{starts_any-opens}

-- No keyword of a statement starts an expression.
abbrev NoKeyword : Kind → Type 0
NoKeyword k =
    (is_kind k print_kw ≡ false)
    × (is_kind k input_kw ≡ false)
    × (is_kind k if_kw ≡ false)
    × (is_kind k do_kw ≡ false)
    × (is_kind k return_kw ≡ false)
    × (is_kind k scope_kw ≡ false)
    × (is_kind k declare_kw ≡ false)
    × (is_kind k function_kw ≡ false)
    × (is_kind k type_kw ≡ false)

starts_any-NoKeyword : (k : Kind) → starts_any k ≡ true → NoKeyword k
unfolding ordinal
starts_any-NoKeyword k h = (
  ground arith,
  ground arith,
  ground arith,
  ground arith,
  ground arith,
  ground arith,
  ground arith,
  ground arith,
  ground arith,
)

module _ ⦃G : Source⦄ where
  open G use {Scanner, tok, line, left}

  expr_falls : {n : ℕ} (e : Expr n) (s t : Scanner) → Streams s (tokens_of e) t → left t < left s
  unfolding tokens_of
  expr_falls (atom x h) s t k = omega (arith, left-Streams (x ∷ []) s t k)
  expr_falls (prefix x h e) s t k = omega (arith, left-Streams (x ∷ tokens_of e) s t k)
  expr_falls (parens l r h i e) s t k =
      omega (arith, left-Streams (l ∷ (tokens_of e ++ r ∷ [])) s t k)
  expr_falls (chain e tail) s t k =
      let m = Streams-append (tokens_of e) (tokens_behind tail) s t k in
      omega (arith, expr_falls e s m.0 m.1, left-Streams (tokens_behind tail) m.0 t m.2)

  whole_falls : (w : Whole) (s t : Scanner) → Streams s (whole_tokens w) t → left t < left s
  unfolding whole_tokens
  whole_falls (plain e) s t k = expr_falls e s t k
  whole_falls (assigned e x h w) s t k =
      let m = Streams-append (tokens_of e) (x ∷ whole_tokens w) s t k in
      omega (arith, expr_falls e s m.0 m.1, left-Streams (x ∷ whole_tokens w) m.0 t m.2)
  whole_falls (negated x h w) s t k = omega (arith, left-Streams (x ∷ whole_tokens w) s t k)

  -- What is known of the tokens of a statement.
  abbrev pub Begins : Scanner → Scanner → Type 0
  Begins s t = (opens (tok s).kind ≡ true) × (left t < left s)

  keyword-Begins :
      (k : Kind) (x : Located) (xs : List Located) (s t : Scanner)
      → opens k ≡ true
      → Streams s (x ∷ xs) t
      → Is k x
      → Begins s t
  unfolding Streams
  keyword-Begins k x xs s t o h e = (
    subst (λ j. opens j ≡ true) (sym (ap (λ (y : Token). y.kind) h.1 ∙ e)) o,
    omega (arith, left-Streams (x ∷ xs) s t h),
  )

  pub stmt-Begins :
      (st : Stmt) (s t : Scanner) (after : Located)
      → Streams s (stmt_tokens st) t
      → StmtFits st after
      → Begins s t
  unfolding stmt_tokens StmtFits ordinal
  stmt-Begins (expression w) s t after h k =
      (starts_any-opens (tok s).kind (whole-starts_any w s t h), whole_falls w s t h)
  stmt-Begins (returned x w) s t after h k = keyword-Begins return_kw x _ s t refl h k.0
  stmt-Begins (returned_bare x y) s t after h k = keyword-Begins return_kw x _ s t refl h k.0
  stmt-Begins (printed x ps) s t after h k = keyword-Begins print_kw x _ s t refl h k.0
  stmt-Begins (received x w semi) s t after h k = keyword-Begins input_kw x _ s t refl h k.0
  stmt-Begins (dimmed x ds) s t after h k = keyword-Begins dim_kw x _ s t refl h k.0
  stmt-Begins (defined x y ps ty semi b) s t after h k =
      keyword-Begins function_kw x _ s t refl h k.0
  stmt-Begins (looped x y w semi b) s t after h k = keyword-Begins do_kw x _ s t refl h k.0
  stmt-Begins (scoped x b) s t after h k = keyword-Begins scope_kw x _ s t refl h k.0
  stmt-Begins (branched x w y b bs) s t after h k = keyword-Begins if_kw x _ s t refl h k.0

  module _ (fuel : ℕ) (expr block : M Node) where
    -- A statement that starts as an expression does is one.
    pub stmt-expr :
        (p : Parser) {r : Run Node}
        → starts_any (kind p) ≡ true
        → expr (record p { ctx = some "statement" }) ≡ r
        → stmt fuel expr block p ≡ r
    unfolding stmt dispatch
    stmt-expr p h e =
        let n = starts_any-NoKeyword (kind p) h in
        rw (n.0, n.1, n.2, n.3, n.4, n.5, n.6, n.7, n.8) e

    pub block_ends-Ending :
        (e : Ending) (p : Parser) (t : Scanner)
        → Streams p.lex (ending_tokens e) t
        → EndingFits e (shown t)
        → block_ends fuel expr block p ≡ value true (record p { lex = t })
    unfolding Streams
    block_ends-Ending (at_loop x) p t s k =
        let m = next-Streams p x [] t s in
        block_ends-loop fuel expr block t m k ∙ ap (λ y. value true (record p { lex = y })) m.2
    block_ends-Ending (at_end x y) p t s k =
        let m = next-Streams p x (y ∷ []) t s in
        let n = next-Streams (record p { lex = m.0 }) y [] t m.2 in
        block_ends-end fuel expr block t m n k.0 k.1
        ∙ ap (λ y. value true (record p { lex = y })) n.2
    block_ends-Ending at_else p t s k =
        block_ends-else fuel expr block p
          (subst (λ x. is_one_of (else_kw ∷ elseif_kw ∷ []) (tok x).kind ≡ true) (sym s) k)
        ∙ ap (λ y. value true (record p { lex = y })) s

  -- A declaration, as a statement.
  pub dim-Parsed :
      (x : Located) (ds : Dims) (fuel : ℕ) (block : M Node) (p : Parser) (t : Scanner)
      → Streams p.lex (x ∷ dims_tokens ds) t
      → Is dim_kw x
      → DimsFit ds (shown t)
      → left p.lex < fuel
      → Parsed (stmt fuel (expr fuel) block p) p (dim_node_new (dims_trees ds) (dims_line ds)) t
  unfolding ordinal
  dim-Parsed x ds fuel block p t s h k a =
      let r = dim_expr-Parsed x ds fuel (record p { ctx = some "statement" }) t s h k a in
      let e =
        at_first (λ y. starts_any (located_kind y) ≡ true) (x ∷ dims_tokens ds) p.lex t s
          (subst (λ j. starts_any j ≡ true) (sym h) refl) in
      (r.0, stmt-expr fuel (expr fuel) block p e r.1)
