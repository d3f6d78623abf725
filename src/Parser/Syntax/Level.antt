-- ===== src/Parser/Syntax/Level.antt =====
-- Every level of operators in src/parser.c reads the expressions of its level.
use Prim.Native.String.{String}
use ifj.Prelude.{
  ℕ, zero, suc, ◌<◌, ◌≡◌, sym, ap, ◌∙◌, subst, arith, Bool, true, false, [], ◌∷◌, ◌++◌, Option,
  some,
}
use ifj.Token.{Token, Kind, is_kind, is_one_of, rparen}
use ifj.Ast.{Node, unary_op_node_new}
use ifj.Parser.Source.{Source}
use ifj.Parser.Monad.{Parser, Run, value, kind}
use ifj.Parser.Expr.{leaf}
use ifj.Parser.Grammar.{expr}
use ifj.Parser.Associates.{Operands, no_more, one_more, binary_level-Operands, left_tree}
use ifj.Parser.Syntax.{
  Located, located_kind, Expr, Tail, atom, prefix, parens, chain, done, more, tokens_of,
  tokens_behind, tree_of, operands_of, first_line, atoms, level_ops, Stops,
}
use ifj.Parser.Syntax.Stream.{Streams, Streams-append, left-Streams, next-Streams}
use ifj.Parser.Syntax.Kinds.{atoms-prefixes, lparen-prefixes, level_ops-Stops, rparen-Follows}
use ifj.Parser.Syntax.Operand.{unary_expr-operand}
use ifj.Parser.Syntax.Primary.{primary_expr-atom, primary_expr-parens, unary_expr-prefix}
use ifj.Parser.Syntax.Nodes.{
  leaf-is_node, tree_of-is_node, length-operands_of, first_line-Streams, starts-Streams,
}
use ifj.Parser.Syntax.Whole.{contexts, nth_context, level, not_expr-level}

module _ ⦃G : Source⦄ where
  open G use {Scanner, tok, line, left}

  -- The run returns the node, with the scanner in the given state and only the context changed
  -- besides.
  abbrev pub Parsed : Run Node → Parser → Node → Scanner → Type 0
  Parsed r p node t = (c : Option String) × (r ≡ value node (record p { ctx = c; lex = t }))

  at_token :
      (test : Kind → Bool) {s : Scanner} {x : Token}
      → tok s ≡ x
      → test x.kind ≡ true
      → test (tok s).kind ≡ true
  at_token test e h = subst (λ t. test t.kind ≡ true) (sym e) h

  tokens_behind-Stops :
      {n : ℕ} (tail : Tail n) (s t : Scanner)
      → Streams s (tokens_behind tail) t
      → Stops (suc n) (tok t).kind
      → Stops n (tok s).kind
  unfolding Streams tokens_behind Stops
  tokens_behind-Stops done s t h k = rw (h) k.1
  tokens_behind-Stops {n} (more op h e tail) s t k m = rw (k.1) (level_ops-Stops n _ h)

  atom-Parsed :
      (a : Located) (f g : ℕ) (p : Parser) (t : Scanner)
      → is_one_of atoms (located_kind a) ≡ true
      → Streams p.lex (a ∷ []) t
      → Stops 0 (tok t).kind
      → Parsed (level (suc f) (expr f) (suc g) 0 p) p (leaf a.1 a.0) t
  unfolding Streams
  atom-Parsed a f g p t h s k =
      let m = next-Streams p a [] t s in
      (
        p.ctx,
        unary_expr-operand f (expr f) g p (record p { lex = t }) _
              (leaf-is_node (tok p.lex) (line p.lex)) (atoms-prefixes (kind p) (rw (m.5, kind) h))
              (primary_expr-atom (suc f) (expr f) p (record p { lex = t }) (rw (m.5, kind) h)
                (m.1 ∙ ap (λ x. value tt (record p { lex = x })) m.2))
              k
            ∙ ap (λ x. value (leaf x (line p.lex)) (record p { lex = t })) m.5
            ∙ ap (λ x. value (leaf a.1 x) (record p { lex = t })) m.4,
      )

  tail_done :
      (n f g : ℕ) (p : Parser) (t : Scanner)
      → p.lex ≡ t
      → Stops (suc n) (tok t).kind
      → Operands
          (level_ops n)
          (nth_context contexts n)
          (level (suc f) (expr f) g n)
          p
          []
          (record p { lex = t })
  unfolding Stops
  tail_done n f g p t s k =
      subst
        (λ x.
          Operands (level_ops n) (nth_context contexts n) (level (suc f) (expr f) g n) p []
            (record p { lex = x }))
        s (no_more (rw (s) k.0))

  mutual
    unfolding expr tokens_of tokens_behind tree_of operands_of first_line Streams

    pub level-Parsed :
        {n : ℕ} (e : Expr n) (f g : ℕ) (p : Parser) (t : Scanner)
        → Streams p.lex (tokens_of e) t
        → Stops n (tok t).kind
        → left p.lex < suc f
        → left p.lex < g
        → Parsed (level (suc f) (expr f) g n p) p (tree_of e) t
    level-Parsed e f zero p t s k a b = absurd (omega arith)
    level-Parsed (atom x h) f (suc g) p t s k a b = atom-Parsed x f g p t h s k
    level-Parsed (prefix op h e) f (suc g) p t s k a b =
        let m = next-Streams p op (tokens_of e) t s in
        let r =
          level-Parsed e f g (record p { lex = m.0 }) t m.2 k (omega (arith, m.3))
            (omega (arith, m.3)) in
        (
          r.0,
          unary_expr-prefix (suc f) (expr f) g p _ _ (tree_of e) (rw (m.5, kind) h) m.1 r.1
              ∙ ap
                  (λ x.
                    value (unary_op_node_new x.kind (tree_of e) false (line p.lex))
                      (record p { ctx = r.0; lex = t }))
                  m.5
              ∙ ap
                  (λ x.
                    value (unary_op_node_new (located_kind op) (tree_of e) false x)
                      (record p { ctx = r.0; lex = t }))
                  m.4,
        )
    level-Parsed (parens l r h i e) zero (suc g) p t s k a b =
        absurd (omega (arith, (next-Streams p l (tokens_of e ++ r ∷ []) t s).3))
    level-Parsed (parens l r h i e) (suc f) (suc g) p t s k a b =
        let m = next-Streams p l (tokens_of e ++ r ∷ []) t s in
        let n = Streams-append (tokens_of e) (r ∷ []) m.0 t m.2 in
        let inner : Parser = record p { lex = m.0 } in
        let closed = rparen-Follows (tok n.0).kind (at_token (λ k. is_kind k rparen) n.2.1 i) in
        let c =
          level-Parsed e f (suc f) inner n.0 n.1 closed.0 (omega (arith, m.3))
            (omega (arith, m.3)) in
        let q : Parser = record p { ctx = c.0; lex = n.0 } in
        let o = next-Streams q r [] t n.2 in
        (
          c.0,
          unary_expr-operand (suc f) (expr (suc f)) g p (record q { lex = t }) (tree_of e)
              (tree_of-is_node e) (lparen-prefixes (kind p) (rw (m.5, kind) h))
              (primary_expr-parens (suc (suc f)) (expr (suc f)) p inner q (record q { lex = t })
                (tree_of e) (rw (m.5, kind) h) m.1
                (not_expr-level (suc f) (expr f) inner q (tree_of e) (starts-Streams e m.0 n.0 n.1)
                  c.1 closed)
                (at_token (λ k. is_kind k rparen) n.2.1 i)
                (o.1 ∙ ap (λ x. value tt (record q { lex = x })) o.2))
              k,
        )
    level-Parsed (chain e tail) f (suc g) p t s k a b =
        let m = Streams-append (tokens_of e) (tokens_behind tail) p.lex t s in
        let r = level-Parsed e f (suc g) p m.0 m.1 (tokens_behind-Stops tail m.0 t m.2 k) a b in
        let q : Parser = record p { ctx = r.0; lex = m.0 } in
        let o =
          operands_of-Operands tail f (suc g) q t m.2 k
            (omega (arith, left-Streams (tokens_of e) p.lex m.0 m.1))
            (omega (arith, left-Streams (tokens_of e) p.lex m.0 m.1)) in
        (
          o.0,
          binary_level-Operands _ _ _ (suc f) r.1 o.1 (
                omega (
                  arith,
                  length-operands_of tail,
                  left-Streams (tokens_of e) p.lex m.0 m.1,
                  left-Streams (tokens_behind tail) m.0 t m.2,
                ))
              ∙ ap
                  (λ x.
                    value (left_tree x (tree_of e) (operands_of tail))
                      (record p { ctx = o.0; lex = t }))
                  (first_line-Streams e p.lex m.0 m.1),
        )

    operands_of-Operands :
        {n : ℕ} (tail : Tail n) (f g : ℕ) (p : Parser) (t : Scanner)
        → Streams p.lex (tokens_behind tail) t
        → Stops (suc n) (tok t).kind
        → left p.lex < suc f
        → left p.lex < g
        → (c : Option String) × Operands
            (level_ops n)
            (nth_context contexts n)
            (level (suc f) (expr f) g n)
            p
            (operands_of tail)
            (record p { ctx = c; lex = t })
    operands_of-Operands done f g p t s k a b = (p.ctx, tail_done _ f g p t s k)
    operands_of-Operands {n} (more op h e tail) f g p t s k a b =
        let m = next-Streams p op (tokens_of e ++ tokens_behind tail) t s in
        let i = Streams-append (tokens_of e) (tokens_behind tail) m.0 t m.2 in
        let r =
          level-Parsed e f g (record p { ctx = some (nth_context contexts n); lex = m.0 }) i.0 i.1
            (tokens_behind-Stops tail i.0 t i.2 k) (omega (arith, m.3)) (omega (arith, m.3)) in
        let q : Parser = record p { ctx = r.0; lex = i.0 } in
        let o =
          operands_of-Operands tail f g q t i.2 k
            (omega (arith, m.3, left-Streams (tokens_of e) m.0 i.0 i.1))
            (omega (arith, m.3, left-Streams (tokens_of e) m.0 i.0 i.1)) in
        (
          o.0,
          subst
              (λ x.
                Operands (level_ops n) (nth_context contexts n) (level (suc f) (expr f) g n) p
                  ((x.kind, tree_of e) ∷ operands_of tail) (record p { ctx = o.0; lex = t }))
              m.5 (one_more {p = p} (rw (m.5, kind) h) m.1 r.1 o.1),
        )
